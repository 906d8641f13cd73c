-- ===== src/Arith/Appends.antt =====
-- The translators of src/runner/compiler/arith.rs only append.
pub mod Parts
pub mod Operations
pub mod Comparisons
pub mod Moves
use xob.Vendor.{Vendor}
use xob.Vendor.Bad64
use xob.Vendor.Bad64.{Op}
use xob.Assembler.{Assembler}
use xob.Assembler.Extends.{Extends, extends_rules}
use xob.Arith.{compile_op, compile_instr}
use Operations.{
  translate_shift-Extends, translate_add_sub-Extends, translate_div-Extends, translate_madd-Extends,
  translate_logical-Extends, translate_bic-Extends, translate_ubfiz-Extends,
}
use Comparisons.{
  translate_cmp_cmn-Extends, translate_ccmp-Extends, translate_cset-Extends, translate_csel-Extends,
}
use Moves.{
  translate_mov-Extends, translate_movk-Extends, translate_adrp-Extends, translate_extend-Extends,
  translate_movi-Extends,
}

ruleset translator_rules = (
  extends_rules, translate_shift-Extends, translate_add_sub-Extends, translate_div-Extends,
  translate_madd-Extends, translate_logical-Extends, translate_bic-Extends, translate_ubfiz-Extends,
  translate_cmp_cmn-Extends, translate_ccmp-Extends, translate_cset-Extends, translate_csel-Extends,
  translate_mov-Extends, translate_movk-Extends, translate_adrp-Extends, translate_extend-Extends,
  translate_movi-Extends,
)

module _ ⦃v : Vendor⦄ {a : Assembler} where
  compile_op-Extends :
      (x0 : Op) (x1 : Bad64.Instruction) (b : Assembler)
      → Extends a b
      → Extends a (compile_op x0 x1 b).1
  unfolding compile_op
  compile_op-Extends Op.nop x1 b h = search translator_rules
  compile_op-Extends _ x1 b h = search translator_rules

  -- Whatever the instruction and however it ends, its code stands behind what was there.
  pub compile_instr-Extends :
      (i : Bad64.Instruction) (b : Assembler) → Extends a b → Extends a (compile_instr i b).1
  unfolding compile_instr
  compile_instr-Extends i b h = compile_op-Extends i.op i b h
