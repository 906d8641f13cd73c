-- ===== src/Tests/Patching.antt =====
-- The callbacks: a call at 9002 that becomes a jump to another chunk, and one at the end of a chunk of
-- 128 instructions.
use xob.Base.{
  ℕ, ◌+◌, ◌≤◌, ◌≡◌, refl, ap, inr, Option, arith, some, none, List, [], ◌∷◌, ◌++◌, length,
}
use mathlib.Core.Path.{subst}
use xob.Outcome.{ok, index}
use xob.Memory.{Memory, read_u32, write_bytes}
use xob.Vendor.Bad64
use xob.Vendor.Bad64.{Op, Imm}
use xob.ExecPool.{
  ExecPool, CompiledChunk, executable_alloc_size, is_executable, any_range, get_chunk,
}
use xob.Assembler.{create_label, fresh, emit, asm}
use xob.Branch.JumpCode.{jump_code}
use xob.InstrUtils.{make_call, label_target}
use xob.Compiler.{compile_entries_of, compile_entries, create_labels}
use xob.Finalize.{Platform, Encoded}
use xob.Finalize.Placement.{Fresh, Small}
use xob.Runner.{get_exec, find_or_compile, from_exec, find_offset}
use xob.Runner.Cache.{WellPlaced}
use xob.Runner.FromExec.{Apart}
use xob.Runner.GetExec.{chunk_calls}
use xob.Callbacks.{
  copy_code, label_index, rewrite_branch, rewrite_branch_at, jump_on, write_jump, place_jump,
  end_of_chunk,
}
use xob.Callbacks.Patches.{Patched, rewrite_branch-Patched}
use xob.Callbacks.EndOfChunk.{end_of_chunk-next_chunk}
use xob.Tests.Setup.{vendor, callbacks, platform, platform-Fresh, accepting, one_byte_each}
use xob.Tests.Chunks.{pool, chunks, chunks-Apart, one_key, nothing}
use xob.Tests.Cache.{by_three}

abbrev ten : List ℕ
ten = 1 ∷ 2 ∷ 3 ∷ 4 ∷ 5 ∷ 6 ∷ 7 ∷ 8 ∷ 9 ∷ 10 ∷ []

-- A byte for each call and ten more: a jump takes 12.
abbrev encoder : Platform
encoder = record {
  encode = λ instrs addr.
      some (record { code_buffer = one_byte_each instrs ++ ten; new_instruction_offsets = [] });
  mmap = platform.mmap;
}

encoder-Fresh : Fresh encoder
encoder-Fresh = record {
  not_null = platform-Fresh.not_null;
  retired = platform-Fresh.retired;
  current = platform-Fresh.current;
}

abbrev branch : Bad64.Instruction
branch = record {
  op = Op.b;
  operands = Bad64.Operand.label (Imm.unsigned 1028) ∷ [];
  address = 520;
}

abbrev decode : ℕ → ℕ → Option Bad64.Instruction
decode code addr = some branch

abbrev zeros : Memory
zeros x = 0

abbrev jump_bytes : List ℕ
jump_bytes = 144 ∷ 144 ∷ ten

chunk_at :
    (k : ℕ) (c : CompiledChunk)
    → get_chunk chunks k ≡ some c
    → (9000 ≤ c.addr) × (c.addr + c.len ≤ 9008)
unfolding get_chunk
chunk_at k c h = ground arith

pub pool-WellPlaced : WellPlaced pool
pool-WellPlaced = record {
  regions = record { within = omega arith; clear = λ r (i, h) _. cc };
  apart = chunks-Apart;
  stored = λ k c h. inr ((λ z. omega arith), chunk_at k c h);
}

code_length :
    (k : ℕ)
    → length (
        one_byte_each (chunk_calls ⦃v = vendor⦄ ⦃cb = callbacks⦄ ⦃p = encoder⦄ nothing pool k)
        ++ ten)
      ≡ 140
unfolding compile_entries_of compile_entries create_labels create_label fresh emit asm make_call
code_length k = refl

abbrev code_of : Option Encoded → List ℕ
code_of none = []
code_of (some e) = e.code_buffer

small :
    (k : ℕ) → Small encoder (chunk_calls ⦃v = vendor⦄ ⦃cb = callbacks⦄ ⦃p = encoder⦄ nothing pool k)
small k addr e h =
    subst (λ b. length b ≤ executable_alloc_size) (ap (λ (o : Option Encoded). code_of o) h)
      (rw (code_length k) (omega arith))

rewrites :
    rewrite_branch ⦃v = vendor⦄ ⦃cb = callbacks⦄ ⦃p = encoder⦄ nothing decode zeros pool 9014
    ≡ ok (write_bytes zeros 9002 jump_bytes, pool, 9006)
unfolding rewrite_branch rewrite_branch_at jump_on write_jump place_jump jump_code asm emit
    from_exec find_offset label_index label_target get_exec find_or_compile is_executable any_range
    get_chunk
rewrites = refl

rewrite_branch-Patched_example :
    (arm_ptr : ℕ) × (instr : Bad64.Instruction) × (i : ℕ) × (label : Bad64.Operand) × (target : ℕ)
    × (from_exec chunks 9002 ≡ ok arm_ptr)
    × (decode (read_u32 zeros arm_ptr) arm_ptr ≡ some instr)
    × (label_index instr.op ≡ some i)
    × (index instr.operands i ≡ ok label)
    × (label_target label ≡ ok target)
    × Patched ⦃v = vendor⦄ ⦃cb = callbacks⦄ ⦃p = encoder⦄ nothing zeros
        (write_bytes zeros 9002 jump_bytes)
        pool
        pool
        9002
        target
        9006
rewrite_branch-Patched_example =
    rewrite_branch-Patched ⦃v = vendor⦄ ⦃cb = callbacks⦄ ⦃p = encoder⦄ accepting encoder-Fresh
      nothing decode zeros (write_bytes zeros 9002 jump_bytes) pool pool 9014 9006 pool-WellPlaced
      small rewrites

abbrev full_chunk : ℕ → CompiledChunk
full_chunk addr = record { instr_map = by_three 0 128; addr = addr; len = 642 }

abbrev two_chunks : ExecPool
two_chunks = record {
  exec_ranges = record { start = 512; stop = 1536 } ∷ [];
  executable_map = (1024, full_chunk 17026) ∷ (512, full_chunk 16384) ∷ [];
  fully_used_allocs = [];
  current_alloc = 16384;
  current_alloc_utilization = 1284;
  code = [];
}

two_chunks-Apart : Apart two_chunks.executable_map
unfolding get_chunk
two_chunks-Apart = (
  refl,
  λ k c' h. inr (rw (← one_key (full_chunk 16384) c' k h) (omega arith)),
  (refl, λ k c' h. cc, tt),
)

first_found : get_chunk two_chunks.executable_map 512 ≡ some (full_chunk 16384)
unfolding get_chunk
first_found = refl

second_exec :
    get_exec ⦃v = vendor⦄ ⦃cb = callbacks⦄ ⦃p = encoder⦄ nothing two_chunks 1024
    ≡ ok (two_chunks, 17026)
unfolding get_exec find_or_compile is_executable any_range get_chunk
second_exec = refl

end_of_chunk-next_chunk_example :
    end_of_chunk ⦃v = vendor⦄ ⦃cb = callbacks⦄ ⦃p = encoder⦄ nothing decode zeros two_chunks 17026
    ≡ ok (write_bytes zeros 17014 jump_bytes, two_chunks, 17026)
unfolding copy_code
end_of_chunk-next_chunk_example =
    end_of_chunk-next_chunk ⦃v = vendor⦄ ⦃cb = callbacks⦄ ⦃p = encoder⦄ accepting nothing decode
      zeros two_chunks two_chunks 512 381 630 17026 (full_chunk 16384)
      (record { code_buffer = jump_bytes; new_instruction_offsets = [] }) two_chunks-Apart
      first_found refl refl (omega arith) (omega arith) (omega arith) (omega arith) second_exec refl
      refl
