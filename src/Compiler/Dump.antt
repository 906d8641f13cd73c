-- ===== src/Compiler/Dump.antt =====
-- src/runner/compiler/dump.rs: the listing of a compiled chunk, its AArch64 instructions beside the
-- x86-64 instructions. What is printed is a list of lines; the text of an instruction is not modelled.
pub mod Columns
pub mod Ends
use xob.Base.{
  ℕ, zero, suc, ◌+◌, ◌-◌, ◌*◌, Bool, List, [], ◌∷◌, ◌++◌, Option, none, some, ltb, ◌==◌,
  if◌then◌else◌,
}
use xob.Outcome.{Outcome, ok, panic, index, ◌>>=◌}
use xob.ExecPool.{CompiledChunk}
use xob.Compiler.{Decoded}

-- What iced tells of a decoded instruction.
pub record X86 : Type 0 where
  pub ip : ℕ
  pub is_invalid : Bool

-- A line has an AArch64 instruction with its address, an x86-64 instruction, or both.
pub record Line : Type 0 where
  pub arm : Option (ℕ × Decoded)
  pub x86 : Option X86

unfoldable pub dump_instr_pair : Option (ℕ × Decoded) → Option X86 → Line
dump_instr_pair arm_instr x86_instr = record { arm = arm_instr; x86 = x86_instr }

-- The calls of `decode_out` on the code of the chunk, from 0, give the instructions of `decode`; the
-- last argument of the loops is the number of the last call. The loops run on fuel.
module _ (decode : ℕ → X86) (chunk_addr : ℕ) (chunk : CompiledChunk) where
  unfoldable pub x86_offset : X86 → ℕ
  x86_offset instr = instr.ip - chunk.addr

  -- The loop over the x86-64 instructions before an offset.
  unfoldable pub dump_until : ℕ → ℕ → ℕ → Outcome (List Line × ℕ)
  unfolding x86_offset dump_instr_pair
  dump_until zero cur n = panic
  dump_until (suc fuel) cur n =
      let rest = dump_until fuel cur (suc n) in
      if ltb (x86_offset (decode n)) cur
      then (do (lines, k) ← rest; ok (dump_instr_pair none (some (decode n)) ∷ lines, k))
      else ok ([], n)

  -- One round of the loop over the AArch64 instructions.
  unfoldable pub dump_entry : ℕ → ℕ → ℕ × Decoded → ℕ → Outcome (List Line × ℕ)
  unfolding dump_until
  dump_entry fuel cur arm n =
      if x86_offset (decode n) == cur then ok (dump_instr_pair (some arm) none ∷ [], n) else (do
        (lines, k) ← dump_until fuel cur (suc n)
        ok (lines ++ dump_instr_pair (some arm) (some (decode k)) ∷ [], k))

  -- The loop, from index `i` on.
  unfoldable pub dump_entries : ℕ → ℕ → List Decoded → ℕ → Outcome (List Line × ℕ)
  unfolding dump_entry
  dump_entries fuel i [] n = ok ([], n)
  dump_entries fuel i (arm ∷ arms) n = do
    cur ← index chunk.instr_map i
    (lines, k) ← dump_entry fuel cur (chunk_addr + i * 4, arm) n
    (lines', j) ← dump_entries fuel (suc i) arms k
    ok (lines ++ lines', j)

  -- The last loop.
  unfoldable pub dump_rest : ℕ → ℕ → Outcome (List Line)
  unfolding dump_instr_pair
  dump_rest zero n = panic
  dump_rest (suc fuel) n =
      let rest = dump_rest fuel (suc n) in
      if (decode (suc n)).is_invalid
      then ok []
      else (do lines ← rest; ok (dump_instr_pair none (some (decode (suc n))) ∷ lines))

  unfoldable pub dump_translation : ℕ → List Decoded → Outcome (List Line)
  unfolding dump_entries dump_rest
  dump_translation fuel [] = panic
  dump_translation fuel (arm ∷ arms) = do
    (lines, n) ← dump_entries fuel 1 arms 0
    rest ← dump_rest fuel n
    ok (dump_instr_pair (some (chunk_addr, arm)) (some (decode 0)) ∷ lines ++ rest)
