-- ===== src/Arith/Appends/Moves.antt =====
-- The translators of moves and extensions only append.
use xob.Base.{ℕ, Option, none, some}
use xob.Vendor.{Vendor}
use xob.Vendor.Bad64
use xob.Vendor.Bad64.{Op, Imm, Shift, Reg, Condition}
use xob.Vendor.Iced.{Code}
use xob.Register.{RegClass, RegTranslation}
use xob.Assembler.{Assembler}
use xob.Assembler.Extends.{Extends}
use xob.Arith.Appends.Parts.{arith_rules}
use xob.Arith.Moves.{
  mov_imm, mov_operand, translate_mov, with_rax, movk_bits, translate_movk, translate_adrp,
  extend_into, translate_extend, zero_vector, no_shift, translate_movi,
}

module _ ⦃v : Vendor⦄ {a : Assembler} where
  pub mov_imm-Extends :
      (x0 : RegClass) (x1 : RegTranslation) (x2 : Bad64.Imm) (b : Assembler)
      → Extends a b
      → Extends a (mov_imm x0 x1 x2 b).1
  unfolding mov_imm
  mov_imm-Extends x0 x1 x2 b h = search (arith_rules) depth 24 fits 4000

  pub mov_operand-Extends :
      (x0 : RegClass) (x1 : RegTranslation) (x2 : Bad64.Operand) (b : Assembler)
      → Extends a b
      → Extends a (mov_operand x0 x1 x2 b).1
  unfolding mov_operand
  mov_operand-Extends x0 x1 (Bad64.Operand.reg r s) b h = search (arith_rules) depth 24 fits 4000
  mov_operand-Extends x0 x1 (Bad64.Operand.imm64 i s) b h =
      search (arith_rules, mov_imm-Extends) depth 24 fits 4000
  mov_operand-Extends x0 x1 (Bad64.Operand.imm32 i s) b h =
      search (arith_rules, mov_imm-Extends) depth 24 fits 4000
  mov_operand-Extends x0 x1 _ b h = search (arith_rules) depth 24 fits 4000

  pub translate_mov-Extends :
      (x0 : Bad64.Instruction) (b : Assembler) → Extends a b → Extends a (translate_mov x0 b).1
  unfolding translate_mov
  translate_mov-Extends x0 b h = search (arith_rules, mov_operand-Extends) depth 24 fits 4000

  pub with_rax-Extends :
      (x0 : Code) (x1 : RegTranslation) (b : Assembler)
      → Extends a b
      → Extends a (with_rax x0 x1 b).1
  unfolding with_rax
  with_rax-Extends x0 x1 b h = search (arith_rules) depth 24 fits 4000

  pub movk_bits-Extends :
      (x0 : RegClass) (x1 : RegTranslation) (x2 : ℕ) (x3 : ℕ) (x4 : ℕ) (b : Assembler)
      → Extends a b
      → Extends a (movk_bits x0 x1 x2 x3 x4 b).1
  unfolding movk_bits
  movk_bits-Extends x0 x1 x2 x3 x4 b h = search (arith_rules, with_rax-Extends) depth 24 fits 4000

  pub translate_movk-Extends :
      (x0 : Bad64.Instruction) (b : Assembler) → Extends a b → Extends a (translate_movk x0 b).1
  unfolding translate_movk
  translate_movk-Extends x0 b h = search (arith_rules, movk_bits-Extends) depth 24 fits 4000

  pub translate_adrp-Extends :
      (x0 : Bad64.Instruction) (b : Assembler) → Extends a b → Extends a (translate_adrp x0 b).1
  unfolding translate_adrp
  translate_adrp-Extends x0 b h = search (arith_rules) depth 24 fits 4000

  pub extend_into-Extends :
      (x0 : RegClass) (x1 : RegTranslation) (x2 : RegClass) (x3 : RegTranslation) (x4 : Shift)
      (b : Assembler)
      → Extends a b
      → Extends a (extend_into x0 x1 x2 x3 x4 b).1
  unfolding extend_into
  extend_into-Extends x0 (RegTranslation.direct r) x2 x3 x4 b h =
      search (arith_rules) depth 24 fits 4000
  extend_into-Extends x0 _ x2 x3 x4 b h = search (arith_rules) depth 24 fits 4000

  pub translate_extend-Extends :
      (x0 : Bad64.Instruction) (b : Assembler) → Extends a b → Extends a (translate_extend x0 b).1
  unfolding translate_extend
  translate_extend-Extends x0 b h = search (arith_rules, extend_into-Extends) depth 24 fits 4000

  pub zero_vector-Extends :
      (x0 : RegClass) (x1 : RegTranslation) (b : Assembler)
      → Extends a b
      → Extends a (zero_vector x0 x1 b).1
  unfolding zero_vector
  zero_vector-Extends x0 x1 b h = search (arith_rules) depth 24 fits 4000

  pub no_shift-Extends :
      (x0 : Option Shift) (b : Assembler) → Extends a b → Extends a (no_shift x0 b).1
  unfolding no_shift
  no_shift-Extends none b h = search (arith_rules) depth 24 fits 4000
  no_shift-Extends (some s) b h = search (arith_rules) depth 24 fits 4000

  pub translate_movi-Extends :
      (x0 : Bad64.Instruction) (b : Assembler) → Extends a b → Extends a (translate_movi x0 b).1
  unfolding translate_movi
  translate_movi-Extends x0 b h =
      search (arith_rules, zero_vector-Extends, no_shift-Extends) depth 24 fits 4000
