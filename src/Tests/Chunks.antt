-- ===== src/Tests/Chunks.antt =====
-- A chunk with a two-byte, an empty and a one-byte instruction, in a map with another.
use xob.Base.{ℕ, ◌<◌, ◌≡◌, ◌/◌, inr, refl, arith, some, List, [], ◌∷◌, get_elem?, true}
use xob.Outcome.{ok}
use xob.Vendor.Iced.{Code, OpKind}
use xob.Assembler.{no_op}
use xob.Machine.{Emits, plain}
use xob.ExecPool.{
  ExecPool, CompiledChunk, ChunkMap, get_chunk, is_executable, any_range, chunk_start, chunk_offset,
}
use xob.Compiler.{create_labels, Decoded}
use xob.Compiler.Labels.{jump_to-label, no_calls}
use xob.Branch.{jump_to}
use xob.Finalize.{Encoded, byte_offset, to_u16, instr_offsets}
use xob.Finalize.Offsets.{Mapped, Covers, instr_offsets-Covers}
use xob.Runner.{find_offset, from_exec, get_exec}
use xob.Runner.Offsets.{Entry}
use xob.Runner.FromExec.{Apart, Compiled, from_exec-inverts}
use xob.Tests.Setup.{vendor, callbacks, platform, accepting}

abbrev pub offsets : List ℕ
offsets = 0 ∷ 2 ∷ 2 ∷ 3 ∷ []

find_2 : find_offset offsets 2 ≡ some 2
unfolding find_offset
find_2 = refl

abbrev pub chunk : CompiledChunk
chunk = record { instr_map = offsets; addr = 9000; len = 4 }

abbrev pub other_chunk : CompiledChunk
other_chunk = record { instr_map = offsets; addr = 9004; len = 4 }

abbrev pub chunks : ChunkMap
chunks = (1024, other_chunk) ∷ (512, chunk) ∷ []

pub one_key : (c c' : CompiledChunk) (k : ℕ) → get_chunk ((512, c) ∷ []) k ≡ some c' → c ≡ c'
unfolding get_chunk
one_key c c' k h = ground arith

pub chunks-Apart : Apart chunks
unfolding get_chunk
chunks-Apart =
    (refl, λ k c' h. inr (rw (← one_key chunk c' k h) (omega arith)), (refl, λ k c' h. cc, tt))

pub chunk-found : get_chunk chunks 512 ≡ some chunk
unfolding get_chunk
chunk-found = refl

abbrev pub pool : ExecPool
pool = record {
  exec_ranges = record { start = 512; stop = 1536 } ∷ [];
  executable_map = chunks;
  fully_used_allocs = [];
  current_alloc = 9000;
  current_alloc_utilization = 8;
  code = [];
}

abbrev pub nothing : ℕ → List Decoded
nothing _ = []

abbrev pub compiled :
    (addr o : ℕ)
    → is_executable pool addr ≡ true
    → chunk_start addr ≡ 512
    → Entry offsets (chunk_offset addr / 4) o
    → o < 4
    → Compiled pool addr o
compiled addr o emulated start entry lt = record {
  chunk = chunk;
  executable = emulated;
  cached = rw start chunk-found;
  entry = entry;
  inside = lt;
  rising = (omega arith, (omega arith, (omega arith, (omega arith, tt))));
}

pub at_516 : is_executable pool 516 ≡ true
unfolding is_executable any_range
at_516 = refl

at_512 : is_executable pool 512 ≡ true
unfolding is_executable any_range
at_512 = refl

after_first : (q : ℕ) → Entry offsets 1 q → 0 < q
after_first q h = ground arith

from_exec-inverts_example :
    (get_exec ⦃v = vendor⦄ ⦃cb = callbacks⦄ ⦃p = platform⦄ nothing pool 512 ≡ ok (pool, 9000))
    × (from_exec chunks 9000 ≡ ok 512)
from_exec-inverts_example =
    from_exec-inverts ⦃v = vendor⦄ ⦃cb = callbacks⦄ ⦃p = platform⦄ nothing pool 512 0 chunks-Apart
      (compiled 512 0 at_512 refl refl (omega arith)) refl after_first

-- Three x86 instructions of two bytes, and the end of the code.
abbrev encoded : Encoded
encoded = record {
  code_buffer = 1 ∷ 1 ∷ 2 ∷ 2 ∷ 3 ∷ 3 ∷ [];
  new_instruction_offsets = 0 ∷ 2 ∷ 4 ∷ [];
}

offsets_of : instr_offsets ⦃p = platform⦄ encoded 3 (0 ∷ 2 ∷ 3 ∷ []) ≡ ok (0 ∷ 4 ∷ 6 ∷ [])
unfolding instr_offsets byte_offset to_u16
offsets_of = refl

offsets_covered : Covers ⦃p = platform⦄ encoded 3 (0 ∷ 2 ∷ 3 ∷ []) (0 ∷ 4 ∷ 6 ∷ [])
offsets_covered =
    instr_offsets-Covers ⦃p = platform⦄ encoded 3 (0 ∷ 2 ∷ 3 ∷ []) (0 ∷ 4 ∷ 6 ∷ []) offsets_of

indices_map :
    (i : ℕ)
    → i < 3
    → (x : ℕ) × (o : ℕ) × (get_elem? (0 ∷ 2 ∷ 3 ∷ []) i ≡ some x)
      × Mapped ⦃p = platform⦄ encoded x o
indices_map i h = let (_, at) = offsets_covered in let (x, o, e, _, m) = at i h in (x, o, e, m)

-- A jump to the sixth instruction of the chunk at 512.
jump_to-label_example :
    (ls : List ℕ) × (l : ℕ) × ((create_labels ⦃v = vendor⦄ ⦃cb = callbacks⦄ 128 no_calls).0 ≡ ok ls)
    × (get_elem? ls 5 ≡ some l)
    × Emits
        (jump_to ⦃v = vendor⦄ ⦃cb = callbacks⦄ chunks 512 532)
        no_calls
        (plain Code.jmp_rel32_64 (OpKind.branch l) no_op ∷ [])
jump_to-label_example =
    jump_to-label ⦃v = vendor⦄ ⦃cb = callbacks⦄ accepting chunks 512 5 no_calls (omega arith)
