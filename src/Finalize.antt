-- ===== src/Finalize.antt =====
-- src/runner/compiler.rs: the placement of assembled code in executable memory. The copy of the
-- bytes adds them to `code` of the pool.
pub mod Offsets
pub mod Rising
pub mod Placement
pub mod Allocation
use xob.Base.{
  ℕ, zero, suc, ◌+◌, ◌%◌, ◌^◌, List, [], ◌∷◌, ◌++◌, Option, length, ltb, ◌==◌, if◌then◌else◌,
}
use xob.Outcome.{Outcome, ok, panic, unwrap, index, ◌>>=◌}
use xob.Vendor.Iced.{Call}
use xob.ExecPool.{ExecPool, CompiledChunk, executable_alloc_size}

-- `BlockEncoderResult`
pub record Encoded : Type 0 where
  pub code_buffer : List ℕ
  pub new_instruction_offsets : List ℕ

-- The block encoder of iced at an address, and the next executable region from `mmap`.
pub record Platform : Type 0 where
  pub encode : List Call → ℕ → Option Encoded
  pub mmap : ExecPool → Option ℕ

-- `fully_used_allocs.push(current_alloc)`, unless it is null.
abbrev pub retire : ℕ → List ℕ → List ℕ
retire zero used = used
retire (suc p) used = used ++ suc p ∷ []

module _ ⦃p : Platform⦄ where
  unfoldable pub alloc_new_region : ExecPool → Outcome ExecPool
  alloc_new_region pool = do
    region ← unwrap (p.mmap pool)
    ok (record pool {
      fully_used_allocs = retire pool.current_alloc pool.fully_used_allocs;
      current_alloc = region;
      current_alloc_utilization = 0;
    })

  unfoldable pub ensure_region : ExecPool → Outcome ExecPool
  unfolding alloc_new_region
  ensure_region pool = if pool.current_alloc == 0 then alloc_new_region pool else ok pool

  -- Where the code exceeds the current region: a new one, and the code encoded for it.
  unfoldable pub place : List Call → ExecPool → Encoded → Outcome (ExecPool × Encoded)
  unfolding alloc_new_region
  place instrs pool enc =
      if ltb executable_alloc_size (length enc.code_buffer + pool.current_alloc_utilization)
      then (do
        pool' ← alloc_new_region pool
        enc' ← unwrap (p.encode instrs pool'.current_alloc)
        ok (pool', enc'))
      else ok (pool, enc)

  unfoldable pub finalize_ass : ExecPool → List Call → Outcome (ExecPool × ℕ × Encoded)
  unfolding ensure_region place
  finalize_ass pool instrs = do
    ready ← ensure_region pool
    first ← unwrap (p.encode instrs ready.current_alloc)
    (placed, enc) ← place instrs ready first
    let target = placed.current_alloc + placed.current_alloc_utilization
    let used = placed.current_alloc_utilization + length enc.code_buffer
    let code = (target, enc.code_buffer) ∷ placed.code
    ok (record placed { current_alloc_utilization = used; code = code }, target, enc)

  -- The byte offset of an x86 instruction as a `u16`.
  unfoldable pub byte_offset : Encoded → ℕ → Outcome ℕ
  byte_offset enc x86_idx =
      if x86_idx == length enc.new_instruction_offsets
      then ok (length enc.code_buffer % 2 ^ 32)
      else index enc.new_instruction_offsets x86_idx

  unfoldable pub to_u16 : ℕ → Outcome ℕ
  to_u16 n = if ltb n (2 ^ 16) then ok n else panic

  -- The loop over the first `n` indices.
  unfoldable pub instr_offsets : Encoded → ℕ → List ℕ → Outcome (List ℕ)
  unfolding byte_offset to_u16
  instr_offsets enc zero x86_idxs = ok []
  instr_offsets enc (suc n) [] = panic
  instr_offsets enc (suc n) (x86_idx ∷ x86_idxs) = do
    raw ← byte_offset enc x86_idx
    offset ← to_u16 raw
    rest ← instr_offsets enc n x86_idxs
    ok (offset ∷ rest)

  unfoldable pub finalize_chunk :
      ExecPool → List Call → ℕ → List ℕ → Outcome (ExecPool × CompiledChunk)
  unfolding finalize_ass instr_offsets
  finalize_chunk pool instrs n x86_idxs = do
    (pool', target, enc) ← finalize_ass pool instrs
    instr_map ← instr_offsets enc n x86_idxs
    ok (pool', record { instr_map = instr_map; addr = target; len = length enc.code_buffer })
