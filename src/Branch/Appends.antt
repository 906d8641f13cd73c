-- ===== src/Branch/Appends.antt =====
-- The translators of src/runner/compiler/branch.rs only append.
use xob.Base.{ℕ, Option, none, some}
use xob.Vendor.{Vendor}
use xob.Vendor.Bad64
use xob.Vendor.Bad64.{Op, Imm, Shift, Reg, Condition}
use xob.Vendor.Iced.{Register}
use xob.Assembler.{Assembler}
use xob.Assembler.Extends.{Extends}
use xob.Arith.Appends.Parts.{arith_rules}
use xob.ExecPool.{ChunkMap, CompiledChunk, Callbacks}
use xob.Branch.{
  far_jump, near_jump, jump_to, make_jump, make_branch_to_label, handle_cbz_cbnz, handle_tbz_tbnz,
  push_shadow_stack, make_indirect_jump, link, make_return, handle_b_cc, make_call_to,
  make_call_reg, compile_op, compile_instr,
}

module _ ⦃v : Vendor⦄ ⦃cb : Callbacks⦄ {a : Assembler} where
  pub far_jump-Extends :
      (x0 : Option CompiledChunk) (x1 : ℕ) (b : Assembler)
      → Extends a b
      → Extends a (far_jump x0 x1 b).1
  unfolding far_jump
  far_jump-Extends (some x0) x1 b h = search (arith_rules) depth 24 fits 4000
  far_jump-Extends none x1 b h = search (arith_rules) depth 24 fits 4000

  pub near_jump-Extends : (x0 : ℕ) (b : Assembler) → Extends a b → Extends a (near_jump x0 b).1
  unfolding near_jump
  near_jump-Extends x0 b h = search (arith_rules) depth 24 fits 4000

  pub jump_to-Extends :
      (x0 : ChunkMap) (x1 : ℕ) (x2 : ℕ) (b : Assembler)
      → Extends a b
      → Extends a (jump_to x0 x1 x2 b).1
  unfolding jump_to
  jump_to-Extends x0 x1 x2 b h =
      search (arith_rules, far_jump-Extends, near_jump-Extends) depth 24 fits 4000

  pub make_jump-Extends :
      (x0 : ChunkMap) (x1 : ℕ) (x2 : Bad64.Operand) (b : Assembler)
      → Extends a b
      → Extends a (make_jump x0 x1 x2 b).1
  unfolding make_jump
  make_jump-Extends x0 x1 x2 b h = search (arith_rules, jump_to-Extends) depth 24 fits 4000

  pub make_branch_to_label-Extends :
      (x0 : ChunkMap) (x1 : ℕ) (x2 : Bad64.Operand) (x3 : Condition) (b : Assembler)
      → Extends a b
      → Extends a (make_branch_to_label x0 x1 x2 x3 b).1
  unfolding make_branch_to_label
  make_branch_to_label-Extends x0 x1 x2 x3 b h =
      search (arith_rules, make_jump-Extends) depth 24 fits 4000

  pub handle_cbz_cbnz-Extends :
      (x0 : ChunkMap) (x1 : ℕ) (x2 : Bad64.Instruction) (b : Assembler)
      → Extends a b
      → Extends a (handle_cbz_cbnz x0 x1 x2 b).1
  unfolding handle_cbz_cbnz
  handle_cbz_cbnz-Extends x0 x1 x2 b h =
      search (arith_rules, make_branch_to_label-Extends) depth 24 fits 4000

  pub handle_tbz_tbnz-Extends :
      (x0 : ChunkMap) (x1 : ℕ) (x2 : Bad64.Instruction) (b : Assembler)
      → Extends a b
      → Extends a (handle_tbz_tbnz x0 x1 x2 b).1
  unfolding handle_tbz_tbnz
  handle_tbz_tbnz-Extends x0 x1 x2 b h =
      search (arith_rules, make_branch_to_label-Extends) depth 24 fits 4000

  pub push_shadow_stack-Extends :
      (x0 : ℕ) (x1 : Register) (b : Assembler)
      → Extends a b
      → Extends a (push_shadow_stack x0 x1 b).1
  unfolding push_shadow_stack
  push_shadow_stack-Extends x0 x1 b h = search (arith_rules) depth 24 fits 4000

  pub make_indirect_jump-Extends :
      (x0 : Bad64.Operand) (b : Assembler) → Extends a b → Extends a (make_indirect_jump x0 b).1
  unfolding make_indirect_jump
  make_indirect_jump-Extends x0 b h = search (arith_rules) depth 24 fits 4000

  pub link-Extends :
      (x0 : Bad64.Instruction) (b : Assembler) → Extends a b → Extends a (link x0 b).1
  unfolding link
  link-Extends x0 b h = search (arith_rules, push_shadow_stack-Extends) depth 24 fits 4000

  pub make_return-Extends : (b : Assembler) → Extends a b → Extends a (make_return b).1
  unfolding make_return
  make_return-Extends b h = search (arith_rules) depth 24 fits 4000

  pub handle_b_cc-Extends :
      (x0 : ChunkMap) (x1 : ℕ) (x2 : Option Condition) (x3 : Bad64.Instruction) (b : Assembler)
      → Extends a b
      → Extends a (handle_b_cc x0 x1 x2 x3 b).1
  unfolding handle_b_cc
  handle_b_cc-Extends x0 x1 none x3 b h = search (arith_rules) depth 24 fits 4000
  handle_b_cc-Extends x0 x1 (some x2) x3 b h =
      search (arith_rules, make_branch_to_label-Extends) depth 24 fits 4000

  pub make_call_to-Extends :
      (x0 : ChunkMap) (x1 : ℕ) (x2 : Bad64.Instruction) (b : Assembler)
      → Extends a b
      → Extends a (make_call_to x0 x1 x2 b).1
  unfolding make_call_to
  make_call_to-Extends x0 x1 x2 b h =
      search (arith_rules, link-Extends, make_jump-Extends) depth 24 fits 4000

  pub make_call_reg-Extends :
      (x0 : Bad64.Instruction) (b : Assembler) → Extends a b → Extends a (make_call_reg x0 b).1
  unfolding make_call_reg
  make_call_reg-Extends x0 b h =
      search (arith_rules, link-Extends, make_indirect_jump-Extends) depth 24 fits 4000

ruleset branch_rules = (
  arith_rules, make_jump-Extends, handle_cbz_cbnz-Extends, handle_tbz_tbnz-Extends,
  make_indirect_jump-Extends, make_return-Extends, make_call_to-Extends, make_call_reg-Extends,
)

module _ ⦃v : Vendor⦄ ⦃cb : Callbacks⦄ {a : Assembler} where
  compile_op-Extends :
      (x0 : ChunkMap) (x1 : ℕ) (x2 : Op) (x3 : Bad64.Instruction) (b : Assembler)
      → Extends a b
      → Extends a (compile_op x0 x1 x2 x3 b).1
  unfolding compile_op
  compile_op-Extends x0 x1 Op.b x3 b h = search branch_rules depth 24 fits 4000
  compile_op-Extends x0 x1 _ x3 b h = search branch_rules depth 24 fits 4000

  -- Whatever the instruction and however it ends, its code stands behind what was there.
  pub compile_instr-Extends :
      (chunks : ChunkMap) (chunk_addr : ℕ) (i : Bad64.Instruction) (b : Assembler)
      → Extends a b
      → Extends a (compile_instr chunks chunk_addr i b).1
  unfolding compile_instr
  compile_instr-Extends chunks chunk_addr i b h =
      search (branch_rules, handle_b_cc-Extends, compile_op-Extends) depth 24 fits 4000
