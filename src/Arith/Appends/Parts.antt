-- ===== src/Arith/Appends/Parts.antt =====
-- The emitters of src/runner/compiler/arith.rs that its translators share only append.
use xob.Base.{ℕ}
use xob.Vendor.{Vendor}
use xob.Vendor.Bad64
use xob.Vendor.Bad64.{Op, Imm, Shift, Reg, Condition}
use xob.Vendor.Iced.{Register, Code}
use xob.Register.{RegClass, RegTranslation}
use xob.InstrUtils.Codes.{OpRrCodes, OpRiCodes}
use xob.InstrUtils.Appends.{emitter_rules}
use xob.Assembler.{Assembler}
use xob.Assembler.Extends.{Extends}
use xob.Arith.Operands.{operand_reg, operand_imm, operand_cond}
use xob.Arith.Rrr.{move_then_op, rrr_codes, make_rrr, move_then_imm, make_rri}
use xob.Arith.Shifts.{shift_by, load_shifted}
use xob.Branch.Conditions.{make_jcc}

module _ ⦃v : Vendor⦄ {a : Assembler} where
  pub operand_imm-Extends :
      (x0 : Bad64.Instruction) (x1 : ℕ) (b : Assembler)
      → Extends a b
      → Extends a (operand_imm x0 x1 b).1
  unfolding operand_imm
  operand_imm-Extends x0 x1 b h = search (emitter_rules) depth 24 fits 4000

  pub operand_cond-Extends :
      (x0 : Bad64.Instruction) (x1 : ℕ) (b : Assembler)
      → Extends a b
      → Extends a (operand_cond x0 x1 b).1
  unfolding operand_cond
  operand_cond-Extends x0 x1 b h = search (emitter_rules) depth 24 fits 4000

  pub operand_reg-Extends :
      (x0 : Bad64.Instruction) (x1 : ℕ) (b : Assembler)
      → Extends a b
      → Extends a (operand_reg x0 x1 b).1
  unfolding operand_reg
  operand_reg-Extends x0 x1 b h = search (emitter_rules) depth 24 fits 4000

  pub make_jcc-Extends :
      (x0 : Condition) (x1 : ℕ) (b : Assembler) → Extends a b → Extends a (make_jcc x0 x1 b).1
  unfolding make_jcc
  make_jcc-Extends x0 x1 b h = search (emitter_rules) depth 24 fits 4000

  pub move_then_op-Extends :
      (x0 : Code) (x1 : Code) (x2 : RegTranslation) (x3 : RegTranslation) (x4 : RegTranslation)
      (x5 : RegClass) (b : Assembler)
      → Extends a b
      → Extends a (move_then_op x0 x1 x2 x3 x4 x5 b).1
  unfolding move_then_op
  move_then_op-Extends x0 x1 x2 x3 x4 x5 b h = search (emitter_rules) depth 24 fits 4000

  pub rrr_codes-Extends :
      (x0 : OpRrCodes) (x1 : RegTranslation) (x2 : RegTranslation) (x3 : RegTranslation)
      (x4 : RegClass) (b : Assembler)
      → Extends a b
      → Extends a (rrr_codes x0 x1 x2 x3 x4 b).1
  unfolding rrr_codes
  rrr_codes-Extends x0 x1 x2 x3 RegClass.gpr64 b h =
      search (emitter_rules, move_then_op-Extends) depth 24 fits 4000
  rrr_codes-Extends x0 x1 x2 x3 RegClass.gpr32 b h =
      search (emitter_rules, move_then_op-Extends) depth 24 fits 4000
  rrr_codes-Extends x0 x1 x2 x3 _ b h = search (emitter_rules) depth 24 fits 4000

  pub make_rrr-Extends :
      (x0 : OpRrCodes) (x1 : RegTranslation) (x2 : RegTranslation) (x3 : RegTranslation)
      (x4 : RegClass) (b : Assembler)
      → Extends a b
      → Extends a (make_rrr x0 x1 x2 x3 x4 b).1
  unfolding make_rrr
  make_rrr-Extends x0 x1 x2 x3 x4 b h = search (emitter_rules, rrr_codes-Extends) depth 24 fits 4000

  pub move_then_imm-Extends :
      (x0 : OpRiCodes) (x1 : RegTranslation) (x2 : RegTranslation) (x3 : ℕ) (x4 : RegClass)
      (b : Assembler)
      → Extends a b
      → Extends a (move_then_imm x0 x1 x2 x3 x4 b).1
  unfolding move_then_imm
  move_then_imm-Extends x0 x1 x2 x3 x4 b h = search (emitter_rules) depth 24 fits 4000

  pub make_rri-Extends :
      (x0 : OpRiCodes) (x1 : RegTranslation) (x2 : RegTranslation) (x3 : ℕ) (x4 : RegClass)
      (b : Assembler)
      → Extends a b
      → Extends a (make_rri x0 x1 x2 x3 x4 b).1
  unfolding make_rri
  make_rri-Extends x0 x1 x2 x3 x4 b h =
      search (emitter_rules, move_then_imm-Extends) depth 24 fits 4000

  pub shift_by-Extends :
      (x0 : Register) (x1 : RegClass) (x2 : Shift) (x3 : ℕ) (b : Assembler)
      → Extends a b
      → Extends a (shift_by x0 x1 x2 x3 b).1
  unfolding shift_by
  shift_by-Extends x0 x1 x2 x3 b h = search (emitter_rules) depth 24 fits 4000

  pub load_shifted-Extends :
      (x0 : Register) (x1 : RegClass) (x2 : RegTranslation) (x3 : RegClass) (x4 : Shift)
      (b : Assembler)
      → Extends a b
      → Extends a (load_shifted x0 x1 x2 x3 x4 b).1
  unfolding load_shifted
  load_shifted-Extends x0 x1 x2 x3 x4 b h =
      search (emitter_rules, shift_by-Extends) depth 24 fits 4000

pub ruleset arith_rules = (
  emitter_rules, operand_imm-Extends, operand_cond-Extends, operand_reg-Extends, make_jcc-Extends,
  make_rrr-Extends, make_rri-Extends, load_shifted-Extends,
)
