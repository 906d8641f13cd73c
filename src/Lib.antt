-- ===== src/Lib.antt =====
-- xob64 runs AArch64 programs on x86-64: it maps their ELF files, and translates their code in chunks
-- of 512 bytes when it is first reached. This library models the loader; the translator, which is the
-- code cache, the chunk compiler, and the translation of each instruction to calls of the iced-x86
-- assembler; the callbacks by which compiled code goes on at code that is not compiled yet; and the
-- symbols of wrapped libraries.
--
-- `load_object` (src/loader.rs) opens the libraries that an object needs, chooses a base address, maps
-- the segments, which defines the ranges of emulated code, and applies the relocations; a symbol that
-- no object has comes from a library of the host (src/wrapped.rs), as a proxy that calls it.
--
-- A call of `get_exec` (src/runner.rs) for an address of the emulated program looks for its chunk in
-- the pool, compiles the chunk where it is missing (src/runner/compiler.rs) and gives the address of
-- the instruction's code; `from_exec` goes back. Compiling a chunk offers each instruction to the load
-- and store, arithmetic, branch and pointer authentication translators in turn. They share the
-- register allocation (src/runner/compiler/register.rs) and the emitters for two operands
-- (src/runner/compiler/instr_utils.rs).
--
-- The modules:
--   Base: numbers, tests and lists. Words: casts and shifts of machine words.
--   Vendor: bad64 and iced-x86 as far as they are named. Their enums are data types; discriminants,
--     register widths and what iced refuses are the fields of `Vendor`, an instance argument, and
--     `Vendor.Laws` holds the documented facts that some theorems assume.
--   Outcome: `CompileResult`, with panics as a third result.
--   Assembler: `CodeAssembler` as the list of calls made on it and a count of labels. A translator is
--     a function from this state to a result and a state. Assembler.Extends says that it only appends
--     calls, with a rule for each way to build one; the modules named Appends are about the emitters.
--   Cpu: the processor as assembly written by hand, calls and returns use it, with the calling
--     convention of native functions in Cpu.Abi.
--   Register: src/runner/compiler/register.rs (RegTranslation, get_reg_class, translate_reg, lowering);
--     Register.Context is the layout of `ExecCtx` in src/runner.rs.
--   InstrUtils: src/runner/compiler/instr_utils.rs (make_rr, make_ri, make_call, get_alt_reg).
--   Arith, LoadStore, Branch, Pauth: src/runner/compiler/arith.rs, load_store.rs, branch.rs, pauth.rs.
--     Each function has the name it has in Rust; parts of a long function are helpers named for what
--     they do, and `compile_instr` is the dispatch on the operation.
--   Compiler: compile_instr and compile_chunk of src/runner/compiler.rs up to the placement; Finalize:
--     alloc_new_region, finalize_ass and finalize_chunk. `Platform` holds the block encoder and mmap.
--     Compiler.Indices and Finalize.Rising are about the order of the entries of a chunk. Compiler.Dump
--     is src/runner/compiler/dump.rs, the lines of a listing, which no other part reads.
--   ExecPool, Runner: src/runner.rs (ExecPool, define_exec_range, get_exec, from_exec). Runner.Cache and
--     Runner.GetExec hold the invariant of the pool, Runner.FromExec and Runner.Ordered
--     the way back. Runner.CallAsm is the assembly of `call`.
--   Callbacks: src/runner/callbacks.rs, and rewrite_branch and write_jump of
--     src/runner/compiler/branch.rs. Callbacks.Patches and Callbacks.EndOfChunk say what they
--     leave. Callbacks.LandingPads has the assembly around them.
--   Memory: memory as the byte at each address, words, strings and maps from names.
--   Loader: src/loader.rs. Loader itself has the segments and the base address, with the kernel as the
--     instance `Os` and its documented behaviour in Loader.Laws; Loader.Symbols, Loader.Relocations,
--     Loader.InitFini and Loader.Object the rest, up to load_object. Loader.Segments,
--     Loader.AllSegments, Loader.BaseAddr, Loader.Symbols.Cached and Loader.Relocations.Slots are about
--     its parts, Loader.Placed, Loader.Linked and Loader.Joined about the whole.
--   Wrapped: src/wrapped.rs, with elf_lookup.rs, overrides.rs and proxy.rs of src/wrapped in children.
--     `Host` holds the dynamic linker and the native functions.
--   Machine: a machine that runs the two-operand calls on registers, context slots and the flags, at 32
--     and 64 bits, for theorems about emitted code; `Isa` holds what each code does. Branch.Flags: the
--     conditions of both processors.
--   Tests: concrete parameters, and the theorems at concrete inputs.
--
-- Numbers are natural numbers: an address or a 64-bit value is its bit pattern, an i32 immediate its
-- low 32 bits. `align_to_next` and the sums that the linker makes of a base and an offset wrap at 64
-- bits, as in a release build; the other sums of addresses are exact. The hash map from chunk addresses
-- to chunks is an association list that gains a key only where it has none; a map from names takes
-- later entries before earlier ones.
--
-- Two loops read raw memory until they find an end, the dynamic table and the chain of a hash table:
-- `scan_dynamic` and `search_chain` run on fuel, and are a panic without it. A step for each entry and
-- one for the end are enough for the table, and a step for each symbol for a chain. The loops of the
-- listing run on fuel too, and one step more than the bytes of the code is enough. All other recursion
-- is on lists, or on the number of instructions of a chunk, 128.
--
-- The executable regions are apart from the memory of the loader: what is copied into them is `code` of
-- the pool, a list of addresses with their bytes. In Callbacks, whose patches are written into the
-- regions, memory includes them: the copies made by a compilation are written to it before the patch.
--
-- Cpu has 64-bit registers, the zero flag, and memory as 64-bit words at addresses that are multiples
-- of 8 apart; a native function is a function on its states with the promises of the calling
-- convention. The operands that the compiler chooses registers for in `call` are values, and its loop
-- over the arguments is a recursion.
--
-- Not modelled: the two callbacks of src/runner/callbacks.rs that only print and abort; the overriding
-- functions of src/wrapped/overrides/libc.rs, which are assembly and output; the mutexes around the
-- pools, and `ExecCtx::new`, which maps the shadow stack; faults of memory accesses; the vector
-- registers and the other flags in Cpu; the text of a listing; what a call of
-- emulated code does, which is a parameter of `load_object`; src/main.rs, which is input and output.
pub mod Base
pub mod Vendor
pub mod Outcome
pub mod Register
pub mod Assembler
pub mod InstrUtils
pub mod Words
pub mod Cpu
pub mod Branch
pub mod Arith
pub mod Pauth
pub mod LoadStore
pub mod ExecPool
pub mod Compiler
pub mod Finalize
pub mod Runner
pub mod Memory
pub mod Callbacks
pub mod Loader
pub mod Wrapped
pub mod Machine
pub mod Tests
