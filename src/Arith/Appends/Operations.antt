-- ===== src/Arith/Appends/Operations.antt =====
-- The translators of shifts, additions, divisions and logical operations only append.
use xob.Base.{ℕ, Bool, true, false, Option, none, some}
use xob.Vendor.{Vendor}
use xob.Vendor.Bad64
use xob.Vendor.Bad64.{Op, Imm, Shift, Reg, Condition}
use xob.Vendor.Iced
use xob.Vendor.Iced.{Register, Code}
use xob.Register.{RegClass, RegTranslation}
use xob.InstrUtils.Codes.{OpRrCodes}
use xob.Assembler.{Assembler}
use xob.Assembler.Extends.{Extends}
use xob.Arith.Appends.Parts.{arith_rules}
use xob.Arith.Shifts.{shift_operand, translate_shift}
use xob.Arith.AddSub.{
  add_sub_shifted, add_by_lea, add_sub_reg, add_imm_by_lea, add_sub_imm, add_sub_operand,
  translate_add_sub,
}
use xob.Arith.MulDiv.{extend_dividend, divide, translate_div, multiply_add, translate_madd}
use xob.Arith.Logical.{
  logical_imm, logical_operand, translate_logical, translate_bic, unused_mov, translate_ubfiz,
}

module _ ⦃v : Vendor⦄ {a : Assembler} where
  pub shift_operand-Extends :
      (x0 : Code) (x1 : Code) (x2 : RegTranslation) (x3 : RegClass) (x4 : RegTranslation)
      (x5 : Bad64.Operand) (b : Assembler)
      → Extends a b
      → Extends a (shift_operand x0 x1 x2 x3 x4 x5 b).1
  unfolding shift_operand
  shift_operand-Extends x0 x1 x2 x3 x4 (Bad64.Operand.reg r s) b h =
      search (arith_rules) depth 24 fits 4000
  shift_operand-Extends x0 x1 x2 x3 x4 (Bad64.Operand.imm64 (Imm.unsigned n) s) b h =
      search (arith_rules) depth 24 fits 4000
  shift_operand-Extends x0 x1 x2 x3 x4 _ b h = search (arith_rules) depth 24 fits 4000

  pub translate_shift-Extends :
      (x0 : Bad64.Instruction) (b : Assembler) → Extends a b → Extends a (translate_shift x0 b).1
  unfolding translate_shift
  translate_shift-Extends x0 b h = search (arith_rules, shift_operand-Extends) depth 24 fits 4000

  pub add_sub_shifted-Extends :
      (x0 : Bool) (x1 : RegTranslation) (x2 : RegClass) (x3 : RegTranslation) (x4 : Reg)
      (x5 : Shift) (b : Assembler)
      → Extends a b
      → Extends a (add_sub_shifted x0 x1 x2 x3 x4 x5 b).1
  unfolding add_sub_shifted
  add_sub_shifted-Extends x0 x1 x2 x3 x4 x5 b h = search (arith_rules) depth 24 fits 4000

  pub add_by_lea-Extends :
      (x0 : Iced.Instruction) (x1 : RegTranslation) (x2 : RegClass) (x3 : RegTranslation)
      (x4 : RegTranslation) (b : Assembler)
      → Extends a b
      → Extends a (add_by_lea x0 x1 x2 x3 x4 b).1
  unfolding add_by_lea
  add_by_lea-Extends x0 x1 x2 x3 x4 b h = search (arith_rules) depth 24 fits 4000

  pub add_sub_reg-Extends :
      (x0 : Iced.Instruction) (x1 : Bool) (x2 : Bool) (x3 : RegTranslation) (x4 : RegClass)
      (x5 : RegTranslation) (x6 : Reg) (b : Assembler)
      → Extends a b
      → Extends a (add_sub_reg x0 x1 x2 x3 x4 x5 x6 b).1
  unfolding add_sub_reg
  add_sub_reg-Extends x0 x1 x2 x3 x4 x5 x6 b h =
      search (arith_rules, add_by_lea-Extends) depth 24 fits 4000

  pub add_imm_by_lea-Extends :
      (x0 : Iced.Instruction) (x1 : RegTranslation) (x2 : RegClass) (x3 : RegTranslation) (x4 : ℕ)
      (b : Assembler)
      → Extends a b
      → Extends a (add_imm_by_lea x0 x1 x2 x3 x4 b).1
  unfolding add_imm_by_lea
  add_imm_by_lea-Extends x0 x1 x2 x3 x4 b h = search (arith_rules) depth 24 fits 4000

  pub add_sub_imm-Extends :
      (x0 : Iced.Instruction) (x1 : Bool) (x2 : Bool) (x3 : RegTranslation) (x4 : RegClass)
      (x5 : RegTranslation) (x6 : Imm) (x7 : Option Shift) (b : Assembler)
      → Extends a b
      → Extends a (add_sub_imm x0 x1 x2 x3 x4 x5 x6 x7 b).1
  unfolding add_sub_imm
  add_sub_imm-Extends x0 x1 x2 x3 x4 x5 x6 none b h =
      search (arith_rules, add_imm_by_lea-Extends) depth 24 fits 4000
  add_sub_imm-Extends x0 x1 x2 x3 x4 x5 x6 (some s) b h = search (arith_rules) depth 24 fits 4000

  pub add_sub_operand-Extends :
      (x0 : Iced.Instruction) (x1 : Bool) (x2 : Bool) (x3 : RegTranslation) (x4 : RegClass)
      (x5 : RegTranslation) (x6 : Bad64.Operand) (b : Assembler)
      → Extends a b
      → Extends a (add_sub_operand x0 x1 x2 x3 x4 x5 x6 b).1
  unfolding add_sub_operand
  add_sub_operand-Extends x0 x1 x2 x3 x4 x5 (Bad64.Operand.shift_reg r s) b h =
      search (arith_rules, add_sub_shifted-Extends) depth 24 fits 4000
  add_sub_operand-Extends x0 x1 x2 x3 x4 x5 (Bad64.Operand.reg r s) b h =
      search (arith_rules, add_sub_reg-Extends) depth 24 fits 4000
  add_sub_operand-Extends x0 x1 x2 x3 x4 x5 (Bad64.Operand.imm64 i s) b h =
      search (arith_rules, add_sub_imm-Extends) depth 24 fits 4000
  add_sub_operand-Extends x0 x1 x2 x3 x4 x5 (Bad64.Operand.imm32 i s) b h =
      search (arith_rules, add_sub_imm-Extends) depth 24 fits 4000
  add_sub_operand-Extends x0 x1 x2 x3 x4 x5 _ b h = search (arith_rules) depth 24 fits 4000

  pub translate_add_sub-Extends :
      (x0 : Bad64.Instruction) (x1 : Bool) (b : Assembler)
      → Extends a b
      → Extends a (translate_add_sub x0 x1 b).1
  unfolding translate_add_sub
  translate_add_sub-Extends x0 x1 b h =
      search (arith_rules, add_sub_operand-Extends) depth 24 fits 4000

  pub extend_dividend-Extends :
      (x0 : Bool) (b : Assembler) → Extends a b → Extends a (extend_dividend x0 b).1
  unfolding extend_dividend
  extend_dividend-Extends true b h = search (arith_rules) depth 24 fits 4000
  extend_dividend-Extends false b h = search (arith_rules) depth 24 fits 4000

  pub divide-Extends :
      (x0 : Bool) (x1 : RegClass) (x2 : RegTranslation) (x3 : RegTranslation) (x4 : RegTranslation)
      (b : Assembler)
      → Extends a b
      → Extends a (divide x0 x1 x2 x3 x4 b).1
  unfolding divide
  divide-Extends x0 x1 x2 x3 x4 b h =
      search (arith_rules, extend_dividend-Extends) depth 24 fits 4000

  pub translate_div-Extends :
      (x0 : Bad64.Instruction) (x1 : Bool) (b : Assembler)
      → Extends a b
      → Extends a (translate_div x0 x1 b).1
  unfolding translate_div
  translate_div-Extends x0 x1 b h = search (arith_rules, divide-Extends) depth 24 fits 4000

  pub multiply_add-Extends :
      (x0 : RegClass) (x1 : RegTranslation) (x2 : RegTranslation) (x3 : RegTranslation)
      (x4 : RegTranslation) (b : Assembler)
      → Extends a b
      → Extends a (multiply_add x0 x1 x2 x3 x4 b).1
  unfolding multiply_add
  multiply_add-Extends x0 x1 x2 x3 x4 b h = search (arith_rules) depth 24 fits 4000

  pub translate_madd-Extends :
      (x0 : Bad64.Instruction) (b : Assembler) → Extends a b → Extends a (translate_madd x0 b).1
  unfolding translate_madd
  translate_madd-Extends x0 b h = search (arith_rules, multiply_add-Extends) depth 24 fits 4000

  pub logical_imm-Extends :
      (x0 : OpRrCodes) (x1 : RegClass) (x2 : RegTranslation) (x3 : RegTranslation) (x4 : Bad64.Imm)
      (b : Assembler)
      → Extends a b
      → Extends a (logical_imm x0 x1 x2 x3 x4 b).1
  unfolding logical_imm
  logical_imm-Extends x0 x1 x2 x3 x4 b h = search (arith_rules) depth 24 fits 4000

  pub logical_operand-Extends :
      (x0 : OpRrCodes) (x1 : RegClass) (x2 : RegTranslation) (x3 : RegTranslation)
      (x4 : Bad64.Operand) (b : Assembler)
      → Extends a b
      → Extends a (logical_operand x0 x1 x2 x3 x4 b).1
  unfolding logical_operand
  logical_operand-Extends x0 x1 x2 x3 (Bad64.Operand.reg r s) b h =
      search (arith_rules) depth 24 fits 4000
  logical_operand-Extends x0 x1 x2 x3 (Bad64.Operand.imm64 i s) b h =
      search (arith_rules, logical_imm-Extends) depth 24 fits 4000
  logical_operand-Extends x0 x1 x2 x3 (Bad64.Operand.imm32 i s) b h =
      search (arith_rules, logical_imm-Extends) depth 24 fits 4000
  logical_operand-Extends x0 x1 x2 x3 _ b h = search (arith_rules) depth 24 fits 4000

  pub translate_logical-Extends :
      (x0 : Bad64.Instruction) (x1 : OpRrCodes) (b : Assembler)
      → Extends a b
      → Extends a (translate_logical x0 x1 b).1
  unfolding translate_logical
  translate_logical-Extends x0 x1 b h =
      search (arith_rules, logical_operand-Extends) depth 24 fits 4000

  pub translate_bic-Extends :
      (x0 : Bad64.Instruction) (b : Assembler) → Extends a b → Extends a (translate_bic x0 b).1
  unfolding translate_bic
  translate_bic-Extends x0 b h = search (arith_rules) depth 24 fits 4000

  pub unused_mov-Extends :
      (x0 : RegClass) (x1 : RegTranslation) (x2 : RegTranslation) (b : Assembler)
      → Extends a b
      → Extends a (unused_mov x0 x1 x2 b).1
  unfolding unused_mov
  unused_mov-Extends x0 x1 x2 b h = search (arith_rules) depth 24 fits 4000

  pub translate_ubfiz-Extends :
      (x0 : Bad64.Instruction) (b : Assembler) → Extends a b → Extends a (translate_ubfiz x0 b).1
  unfolding translate_ubfiz
  translate_ubfiz-Extends x0 b h = search (arith_rules, unused_mov-Extends) depth 24 fits 4000
