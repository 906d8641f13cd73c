-- ===== src/Arith/Appends/Comparisons.antt =====
-- The translators of comparisons and conditional operations only append.
use xob.Base.{ℕ, Bool, true, false}
use xob.Vendor.{Vendor}
use xob.Vendor.Bad64
use xob.Vendor.Bad64.{Op, Imm, Shift, Reg, Condition}
use xob.Register.{RegClass, RegTranslation}
use xob.Assembler.{Assembler}
use xob.Assembler.Extends.{Extends}
use xob.Arith.Appends.Parts.{arith_rules}
use xob.Arith.Compare.{
  compare_reg, compare_imm, compare_operand, translate_cmp_cmn, set_flags, translate_ccmp, set_al,
  widen_al, make_setcc, translate_cset, select, translate_csel,
}

module _ ⦃v : Vendor⦄ {a : Assembler} where
  pub compare_reg-Extends :
      (x0 : Bool) (x1 : RegClass) (x2 : RegTranslation) (x3 : RegTranslation) (b : Assembler)
      → Extends a b
      → Extends a (compare_reg x0 x1 x2 x3 b).1
  unfolding compare_reg
  compare_reg-Extends true x1 x2 x3 b h = search (arith_rules) depth 24 fits 4000
  compare_reg-Extends false x1 x2 x3 b h = search (arith_rules) depth 24 fits 4000

  pub compare_imm-Extends :
      (x0 : Bool) (x1 : RegClass) (x2 : RegTranslation) (x3 : Bad64.Imm) (b : Assembler)
      → Extends a b
      → Extends a (compare_imm x0 x1 x2 x3 b).1
  unfolding compare_imm
  compare_imm-Extends true x1 x2 x3 b h = search (arith_rules) depth 24 fits 4000
  compare_imm-Extends false x1 x2 x3 b h = search (arith_rules) depth 24 fits 4000

  pub compare_operand-Extends :
      (x0 : Bool) (x1 : RegClass) (x2 : RegTranslation) (x3 : Bad64.Operand) (b : Assembler)
      → Extends a b
      → Extends a (compare_operand x0 x1 x2 x3 b).1
  unfolding compare_operand
  compare_operand-Extends x0 x1 x2 (Bad64.Operand.reg r s) b h =
      search (arith_rules, compare_reg-Extends) depth 24 fits 4000
  compare_operand-Extends x0 x1 x2 (Bad64.Operand.imm64 i s) b h =
      search (arith_rules, compare_imm-Extends) depth 24 fits 4000
  compare_operand-Extends x0 x1 x2 (Bad64.Operand.imm32 i s) b h =
      search (arith_rules, compare_imm-Extends) depth 24 fits 4000
  compare_operand-Extends x0 x1 x2 _ b h = search (arith_rules) depth 24 fits 4000

  pub translate_cmp_cmn-Extends :
      (x0 : Bad64.Instruction) (b : Assembler) → Extends a b → Extends a (translate_cmp_cmn x0 b).1
  unfolding translate_cmp_cmn
  translate_cmp_cmn-Extends x0 b h =
      search (arith_rules, compare_operand-Extends) depth 24 fits 4000

  pub set_flags-Extends : (x0 : ℕ) (b : Assembler) → Extends a b → Extends a (set_flags x0 b).1
  unfolding set_flags
  set_flags-Extends x0 b h = search (arith_rules) depth 24 fits 4000

  pub translate_ccmp-Extends :
      (x0 : Bad64.Instruction) (b : Assembler) → Extends a b → Extends a (translate_ccmp x0 b).1
  unfolding translate_ccmp
  translate_ccmp-Extends x0 b h =
      search (arith_rules, set_flags-Extends, compare_operand-Extends) depth 24 fits 4000

  pub set_al-Extends : (x0 : Condition) (b : Assembler) → Extends a b → Extends a (set_al x0 b).1
  unfolding set_al
  set_al-Extends Condition.al b h = search (arith_rules) depth 24 fits 4000
  set_al-Extends _ b h = search (arith_rules) depth 24 fits 4000

  pub widen_al-Extends :
      (x0 : RegTranslation) (b : Assembler) → Extends a b → Extends a (widen_al x0 b).1
  unfolding widen_al
  widen_al-Extends (RegTranslation.direct r) b h = search (arith_rules) depth 24 fits 4000
  widen_al-Extends _ b h = search (arith_rules) depth 24 fits 4000

  pub make_setcc-Extends :
      (x0 : Condition) (x1 : RegTranslation) (b : Assembler)
      → Extends a b
      → Extends a (make_setcc x0 x1 b).1
  unfolding make_setcc
  make_setcc-Extends x0 x1 b h =
      search (arith_rules, set_al-Extends, widen_al-Extends) depth 24 fits 4000

  pub translate_cset-Extends :
      (x0 : Bad64.Instruction) (b : Assembler) → Extends a b → Extends a (translate_cset x0 b).1
  unfolding translate_cset
  translate_cset-Extends x0 b h = search (arith_rules, make_setcc-Extends) depth 24 fits 4000

  pub select-Extends :
      (x0 : Condition) (x1 : RegClass) (x2 : RegTranslation) (x3 : RegTranslation)
      (x4 : RegTranslation) (b : Assembler)
      → Extends a b
      → Extends a (select x0 x1 x2 x3 x4 b).1
  unfolding select
  select-Extends x0 x1 x2 x3 x4 b h = search (arith_rules) depth 24 fits 4000

  pub translate_csel-Extends :
      (x0 : Bad64.Instruction) (b : Assembler) → Extends a b → Extends a (translate_csel x0 b).1
  unfolding translate_csel
  translate_csel-Extends x0 b h = search (arith_rules, select-Extends) depth 24 fits 4000
