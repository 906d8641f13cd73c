-- ===== src/Tests/Cache.antt =====
-- `get_exec` on an empty cache: a chunk of undecodable entries is compiled, twice as one.
use mathlib.Core.Path.{subst}
use xob.Base.{
  ℕ, zero, suc, ◌+◌, ◌≤◌, ◌≡◌, refl, ap, Option, arith, some, none, List, [], ◌∷◌, length,
}
use xob.Outcome.{ok}
use xob.Vendor.Iced.{Call}
use xob.ExecPool.{
  ExecPool, executable_alloc_size, is_executable, any_range, get_chunk, insert_chunk,
}
use xob.Assembler.{create_label, set_label, zero_bytes, fresh, emit, asm}
use xob.InstrUtils.{make_call}
use xob.Compiler.{
  Decoded, instructions_len, compile_entries_of, compile_entries, compile_entry, compile_or_call,
  compile_instr, recover, create_labels,
}
use xob.Finalize.{
  Encoded, finalize_chunk, finalize_ass, instr_offsets, ensure_region, alloc_new_region, place,
  byte_offset, to_u16,
}
use xob.Finalize.Placement.{Small}
use xob.Runner.{get_exec, find_or_compile, compile_chunk}
use xob.Runner.Cache.{WellPlaced}
use xob.Runner.GetExec.{chunk_calls, get_exec-WellPlaced}
use xob.Tests.Setup.{vendor, callbacks, platform, platform-Fresh, one_byte_each, nops}

abbrev pub copies : ℕ → List Decoded
copies zero = []
copies (suc n) = none ∷ copies n

abbrev pub disasm : ℕ → List Decoded
disasm _ = copies 128

abbrev pub empty_pool : ExecPool
empty_pool = record {
  exec_ranges = record { start = 512; stop = 1024 } ∷ [];
  executable_map = [];
  fully_used_allocs = [];
  current_alloc = 0;
  current_alloc_utilization = 0;
  code = [];
}

pub empty-WellPlaced : WellPlaced empty_pool
unfolding get_chunk
empty-WellPlaced = record {
  regions = record { within = omega arith; clear = λ r (i, h) _. cc };
  apart = tt;
  stored = λ k c h. cc;
}

-- `n` multiples of 3, from `o` on.
abbrev pub by_three : ℕ → ℕ → List ℕ
by_three o zero = []
by_three o (suc n) = o ∷ by_three (o + 3) n

abbrev pub compiled_pool : ExecPool
compiled_pool = record {
  exec_ranges = record { start = 512; stop = 1024 } ∷ [];
  executable_map = (512, record { instr_map = by_three 0 128; addr = 16384; len = 642 }) ∷ [];
  fully_used_allocs = [];
  current_alloc = 16384;
  current_alloc_utilization = 642;
  code = (16384, nops 642) ∷ [];
}

get_exec-compiles :
    get_exec ⦃v = vendor⦄ ⦃cb = callbacks⦄ ⦃p = platform⦄ disasm empty_pool 516
    ≡ ok (compiled_pool, 16387)
unfolding get_exec find_or_compile compile_chunk is_executable any_range get_chunk insert_chunk
    compile_entries_of compile_entries compile_entry compile_or_call compile_instr recover
    create_labels create_label set_label zero_bytes fresh emit asm make_call instructions_len
    finalize_chunk finalize_ass ensure_region alloc_new_region place instr_offsets byte_offset
    to_u16
get_exec-compiles = refl

code_length :
    length (
      one_byte_each
        (chunk_calls ⦃v = vendor⦄ ⦃cb = callbacks⦄ ⦃p = platform⦄ disasm empty_pool 512))
    ≡ 642
unfolding compile_entries_of compile_entries compile_entry compile_or_call compile_instr recover
    create_labels create_label set_label zero_bytes fresh emit asm make_call instructions_len
code_length = refl

abbrev code_of : Option Encoded → List ℕ
code_of none = []
code_of (some e) = e.code_buffer

encoded_code :
    (instrs : List Call) (addr : ℕ) (e : Encoded)
    → platform.encode instrs addr ≡ some e
    → one_byte_each instrs ≡ e.code_buffer
encoded_code instrs addr e h = ap (λ (o : Option Encoded). code_of o) h

small :
    Small platform (chunk_calls ⦃v = vendor⦄ ⦃cb = callbacks⦄ ⦃p = platform⦄ disasm empty_pool 512)
small addr e h =
    subst (λ b. length b ≤ executable_alloc_size) (encoded_code _ addr e h)
      (rw code_length (omega arith))

get_exec-WellPlaced_example :
    WellPlaced compiled_pool
    × (get_exec ⦃v = vendor⦄ ⦃cb = callbacks⦄ ⦃p = platform⦄ disasm compiled_pool 516
        ≡ ok (compiled_pool, 16387))
get_exec-WellPlaced_example =
    get_exec-WellPlaced ⦃v = vendor⦄ ⦃cb = callbacks⦄ ⦃p = platform⦄ disasm platform-Fresh
      empty_pool compiled_pool 516 16387 empty-WellPlaced small get_exec-compiles
