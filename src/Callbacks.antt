-- ===== src/Callbacks.antt =====
-- src/runner/callbacks.rs, with the patches of src/runner/compiler/branch.rs: what compiled code calls
-- when it has to go on at code that it does not know yet. The landing pads save registers around the
-- functions here and jump to the address that these return. `decode` is that of bad64, and `disasm`
-- gives the entries of a chunk.
pub mod Patches
pub mod LandingPads
pub mod EndOfChunk
use xob.Base.{
  ℕ, ◌+◌, ◌-◌, ◌%◌, ◌^◌, List, [], ◌∷◌, Option, none, some, length, take, ◌==◌, if◌then◌else◌,
}
use xob.Outcome.{Outcome, ok, panic, unwrap, index, ◌>>=◌}
use xob.Memory.{Memory, read_le, read_u32, write_u64, write_bytes}
use xob.Vendor.{Vendor}
use xob.Vendor.Bad64
use xob.Vendor.Bad64.{Op}
use xob.InstrUtils.{label_target}
use xob.ExecPool.{ExecPool, Callbacks}
use xob.Assembler.{expect}
use xob.Finalize.{Platform, Encoded}
use xob.Branch.{b_cc_condition}
use xob.Branch.JumpCode.{jump_code}
use xob.Compiler.{Decoded}
use xob.Runner.{get_exec, from_exec, new_assembler}

-- `ExecCtx` in its memory.
pub record ExecCtx : Type 0 where
  pub indirect_regs : List ℕ
  pub indirect_fp_regs : List ℕ
  pub param : ℕ
  pub shadow_sp : ℕ
  pub shadow_stack_alloc : ℕ

unfoldable pub push_shadow_stack : Memory → ExecCtx → ℕ → ℕ → Memory × ExecCtx
push_shadow_stack m ctx arm_ptr native_ptr =
    let sp = (ctx.shadow_sp + 2 ^ 64 - 16) % 2 ^ 64 in
    (
      write_u64 (write_u64 m ((sp + 8) % 2 ^ 64) arm_ptr) sp native_ptr,
      record ctx { shadow_sp = sp },
    )

-- The copies into executable memory that turn a pool into a later one, and memory after them.
abbrev pub new_code : ExecPool → ExecPool → List (ℕ × List ℕ)
new_code pool pool' = take (length pool'.code - length pool.code) pool'.code

unfoldable pub copy_code : List (ℕ × List ℕ) → Memory → Memory
copy_code [] m = m
copy_code ((target, bytes) ∷ copies) m = write_bytes (copy_code copies m) target bytes

-- 12 is the length of the mov and the call.
abbrev pub call_before : ℕ → ℕ
call_before ret_ptr = (ret_ptr + 2 ^ 64 - 12) % 2 ^ 64

-- The operand of a branch that holds its label.
unfoldable pub label_index : Op → Option ℕ
label_index Op.b = some 0
label_index Op.bl = some 0
label_index Op.cbz = some 1
label_index Op.cbnz = some 1
label_index Op.tbz = some 2
label_index Op.tbnz = some 2
label_index op = elim (b_cc_condition op) [ some condition ↦ some 0 | none ↦ none ]

unfoldable pub place_jump : Memory → ℕ → Encoded → Outcome Memory
place_jump m at new_code =
    if length new_code.code_buffer == 12 then ok (write_bytes m at new_code.code_buffer) else panic

module _ ⦃v : Vendor⦄ ⦃p : Platform⦄ where
  unfoldable pub write_jump : Memory → ℕ → ℕ → Outcome Memory
  unfolding jump_code place_jump
  write_jump m at dest =
      let run = jump_code dest new_assembler in
      do done ← expect run.0; new_code ← unwrap (p.encode run.1.calls at); place_jump m at new_code

module _ ⦃v : Vendor⦄ ⦃cb : Callbacks⦄ ⦃p : Platform⦄ (disasm : ℕ → List Decoded)
    (decode : ℕ → ℕ → Option Bad64.Instruction) where
  -- The jump to an address of the program, in place of the call.
  unfoldable pub jump_on : Memory → ExecPool → ℕ → ℕ → Outcome (Memory × ExecPool × ℕ)
  unfolding get_exec write_jump copy_code
  jump_on m pool call_ptr target = do
    (pool', exec_ptr) ← get_exec disasm pool target
    m' ← write_jump (copy_code (new_code pool pool') m) call_ptr exec_ptr
    ok (m', pool', exec_ptr)

  unfoldable pub rewrite_branch_at :
      Memory → ExecPool → Bad64.Instruction → ℕ → Outcome (Memory × ExecPool × ℕ)
  unfolding label_index jump_on
  rewrite_branch_at m pool arm_instr call_ptr = do
    i ← unwrap (label_index arm_instr.op)
    label_operand ← index arm_instr.operands i
    target ← label_target label_operand
    jump_on m pool call_ptr target

  -- The instruction is in memory at the address whose code makes the call.
  unfoldable pub rewrite_branch : Memory → ExecPool → ℕ → Outcome (Memory × ExecPool × ℕ)
  unfolding rewrite_branch_at
  rewrite_branch m pool ret_ptr = do
    let call_ptr = call_before ret_ptr
    arm_ptr ← from_exec pool.executable_map call_ptr
    arm_instr ← unwrap (decode (read_u32 m arm_ptr) arm_ptr)
    rewrite_branch_at m pool arm_instr call_ptr

  unfoldable pub indirect_jump : ExecPool → ExecCtx → Outcome (ExecPool × ℕ)
  unfolding get_exec
  indirect_jump pool ctx = get_exec disasm pool ctx.param

  unfoldable pub end_of_chunk : Memory → ExecPool → ℕ → Outcome (Memory × ExecPool × ℕ)
  unfolding jump_on
  end_of_chunk m pool ret_ptr = do
    let call_ptr = call_before ret_ptr
    arm_ptr ← from_exec pool.executable_map call_ptr
    jump_on m pool call_ptr ((arm_ptr + 4) % 2 ^ 64)
