-- ===== src/Tests/RoundTrip.antt =====
-- An encoder that lists its offsets in order, and a chunk that is compiled with it, found and traced
-- back.
use mathlib.Core.Path.{subst}
use xob.Base.{
  ℕ, zero, suc, ◌+◌, ◌≤◌, ◌<◌, ◌≡◌, refl, arith, some, none, List, [], ◌∷◌, ◌++◌, length,
  Bool-cases, inl, inr, true, if◌then◌else◌,
}
use xob.Outcome.{ok}
use xob.Vendor.Iced.{Call, Mnemonic, Arg}
use xob.ExecPool.{
  ExecPool, executable_alloc_size, is_executable, any_range, get_chunk, insert_chunk,
}
use xob.Assembler.{create_label, set_label, zero_bytes, fresh, emit, asm}
use xob.InstrUtils.{make_call}
use xob.Compiler.{
  is_instruction, instructions_len, compile_entries_of, compile_entries, compile_entry,
  compile_or_call, compile_instr, recover, create_labels,
}
use xob.Finalize.{
  Platform, Encoded, finalize_chunk, finalize_ass, instr_offsets, ensure_region, alloc_new_region,
  place, byte_offset, to_u16,
}
use xob.Finalize.Placement.{Small, Fresh}
use xob.Finalize.Rising.{InOrder}
use xob.Vendor.Bad64.{Op}
use xob.Compiler.{Decoded}
use xob.Machine.Logical.{three_registers}
use xob.Runner.{get_exec, find_or_compile, compile_chunk, new_assembler}
use xob.Runner.Offsets.{AllFrom, Entry}
use xob.Runner.GetExec.{chunk_calls}
use xob.Runner.Ordered.{InOrderPool, Traced, get_exec-Traced}
use xob.Tests.Setup.{vendor, callbacks, platform, platform-Fresh}
use xob.Tests.Setup.{nops}
use xob.Tests.Cache.{disasm, empty_pool, empty-WellPlaced}

-- `zero_bytes` has no bytes, any other instruction has one.
abbrev size : Call → ℕ
size (Call.add_instruction i) = 1
size (Call.asm m args) = 1
size _ = 0

abbrev padded : ℕ → List ℕ → List ℕ
padded zero bytes = bytes
padded (suc n) bytes = 144 ∷ padded n bytes

abbrev code : List Call → List ℕ
code [] = []
code (c ∷ cs) = padded (size c) (code cs)

abbrev offsets : ℕ → List Call → List ℕ
offsets o [] = []
offsets o (c ∷ cs) =
    let rest = offsets (o + size c) cs in if is_instruction c then o ∷ rest else rest

abbrev encoder : Platform
encoder = record {
  encode = λ instrs addr.
      some (record { code_buffer = code instrs; new_instruction_offsets = offsets 0 instrs });
  mmap = platform.mmap;
}

encoder-Fresh : Fresh encoder
encoder-Fresh = record {
  not_null = platform-Fresh.not_null;
  retired = platform-Fresh.retired;
  current = platform-Fresh.current;
}

length-offsets : (o : ℕ) (cs : List Call) → length (offsets o cs) ≡ instructions_len cs
unfolding instructions_len
length-offsets o [] = refl
length-offsets o (c ∷ cs) = elim (Bool-cases (is_instruction c)) [
  | inl e ↦ rw (e, length-offsets (o + size c) cs) refl
  | inr e ↦ rw (e, length-offsets (o + size c) cs) refl
]

offsets-AllFrom : (lo o : ℕ) (cs : List Call) → lo ≤ o → AllFrom lo (offsets o cs)
offsets-AllFrom lo o [] le = tt
offsets-AllFrom lo o (c ∷ cs) le = elim (Bool-cases (is_instruction c)) [
  | inl e ↦ rw e (le, offsets-AllFrom o (o + size c) cs (omega arith))
  | inr e ↦ rw e (offsets-AllFrom lo (o + size c) cs (omega arith))
]

length-padded : (n : ℕ) (bytes : List ℕ) → length (padded n bytes) ≡ n + length bytes
length-padded zero bytes = omega arith
length-padded (suc n) bytes = omega (arith, length-padded n bytes)

code-nonempty :
    (cs : List Call) (m : Mnemonic) (args : List Arg)
    → 0 < length (code (cs ++ Call.asm m args ∷ []))
code-nonempty [] m args = omega arith
code-nonempty (c ∷ cs) m args =
    omega
      (arith, length-padded (size c) (code (cs ++ Call.asm m args ∷ [])), code-nonempty cs m args)

-- The offsets lie before the end of code that ends with a call of a method.
offsets-before :
    (o : ℕ) (cs : List Call) (m : Mnemonic) (args : List Arg) (i q : ℕ)
    → Entry (offsets o (cs ++ Call.asm m args ∷ [])) i q
    → q < o + length (code (cs ++ Call.asm m args ∷ []))
offsets-before o [] m args zero q e = ground arith
offsets-before o [] m args (suc i) q e = cc
offsets-before o (c ∷ cs) m args zero q e =
    let some_left = code-nonempty cs m args in
    let total = length-padded (size c) (code (cs ++ Call.asm m args ∷ [])) in
    elim (Bool-cases (is_instruction c)) [
      | inl real ↦ (let here = rw real at e in ground arith)
      | inr other ↦
          (let later = offsets-before (o + size c) cs m args zero q (rw other at e) in omega arith)
    ]
offsets-before o (c ∷ cs) m args (suc i) q e =
    let total = length-padded (size c) (code (cs ++ Call.asm m args ∷ [])) in
    elim (Bool-cases (is_instruction c)) [
      | inl real ↦
          (let later = offsets-before (o + size c) cs m args i q (rw real at e) in omega arith)
      | inr other ↦
          (let later = offsets-before (o + size c) cs m args (suc i) q (rw other at e) in
            omega arith)
    ]

encoded :
    (instrs : List Call) (addr : ℕ) (e : Encoded)
    → encoder.encode instrs addr ≡ some e
    → record { code_buffer = code instrs; new_instruction_offsets = offsets 0 instrs } ≡ e
encoded instrs addr e h = cc

encoder-InOrder : InOrder encoder
encoder-InOrder = record {
  counted = λ cs addr e h.
      subst (λ (r : Encoded). length r.new_instruction_offsets ≡ instructions_len cs)
        (encoded cs addr e h) (length-offsets 0 cs);
  rising = λ cs addr e h.
      subst (λ (r : Encoded). AllFrom 0 r.new_instruction_offsets) (encoded cs addr e h)
        (offsets-AllFrom 0 0 cs (omega arith));
  ended = λ cs m args addr e i o h.
      subst (λ (r : Encoded). Entry r.new_instruction_offsets i o → o < length r.code_buffer)
        (encoded (cs ++ Call.asm m args ∷ []) addr e h)
        (λ at. (let before = offsets-before 0 cs m args i o at in omega arith));
}

empty-InOrderPool : InOrderPool empty_pool
unfolding get_chunk
empty-InOrderPool = record { placed = empty-WellPlaced; ordered = λ k c h. cc }

-- `n` multiples of 2, from `o` on.
abbrev by_two : ℕ → ℕ → List ℕ
by_two o zero = []
by_two o (suc n) = o ∷ by_two (o + 2) n

abbrev traced_pool : ExecPool
traced_pool = record {
  exec_ranges = record { start = 512; stop = 1024 } ∷ [];
  executable_map = (512, record { instr_map = by_two 0 128; addr = 16384; len = 258 }) ∷ [];
  fully_used_allocs = [];
  current_alloc = 16384;
  current_alloc_utilization = 258;
  code = (16384, nops 258) ∷ [];
}

get_exec-traced :
    get_exec ⦃v = vendor⦄ ⦃cb = callbacks⦄ ⦃p = encoder⦄ disasm empty_pool 516
    ≡ ok (traced_pool, 16386)
unfolding get_exec find_or_compile compile_chunk is_executable any_range get_chunk insert_chunk
    compile_entries_of compile_entries compile_entry compile_or_call compile_instr recover
    create_labels create_label set_label zero_bytes fresh emit asm make_call instructions_len
    finalize_chunk finalize_ass ensure_region alloc_new_region place instr_offsets byte_offset
    to_u16
get_exec-traced = refl

code_length :
    length (code (chunk_calls ⦃v = vendor⦄ ⦃cb = callbacks⦄ ⦃p = encoder⦄ disasm empty_pool 512))
    ≡ 258
unfolding compile_entries_of compile_entries compile_entry compile_or_call compile_instr recover
    create_labels create_label set_label zero_bytes fresh emit asm make_call instructions_len
code_length = refl

small :
    Small encoder (chunk_calls ⦃v = vendor⦄ ⦃cb = callbacks⦄ ⦃p = encoder⦄ disasm empty_pool 512)
small addr e h =
    subst (λ (r : Encoded). length r.code_buffer ≤ executable_alloc_size)
      (encoded (chunk_calls ⦃v = vendor⦄ ⦃cb = callbacks⦄ ⦃p = encoder⦄ disasm empty_pool 512) addr
        e h)
      (rw code_length (omega arith))

is_executable-empty : is_executable empty_pool 516 ≡ true
unfolding is_executable any_range
is_executable-empty = refl

get_exec-Traced_example : InOrderPool traced_pool × Traced traced_pool 516 16386
get_exec-Traced_example =
    get_exec-Traced ⦃v = vendor⦄ ⦃cb = callbacks⦄ ⦃p = encoder⦄ disasm encoder-InOrder encoder-Fresh
      empty_pool traced_pool 516 16386 empty-InOrderPool small is_executable-empty get_exec-traced

-- `and x6, x7, x20`
abbrev and_entry : Decoded
and_entry = some (three_registers Op.and 512 6 7 20)

two_indices :
    (compile_entries_of ⦃v = vendor⦄ ⦃cb = callbacks⦄ [] 512 (none ∷ none ∷ []) new_assembler).0
    ≡ ok (0 ∷ 3 ∷ [])
unfolding compile_entries_of compile_entries compile_entry compile_or_call compile_instr recover
    create_labels create_label set_label zero_bytes fresh emit asm make_call instructions_len
two_indices = refl
