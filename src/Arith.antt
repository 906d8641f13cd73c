-- ===== src/Arith.antt =====
-- src/runner/compiler/arith.rs: the dispatch over arithmetic and logic instructions. A translator
-- returns whether the instruction was one of its own.
pub mod Movk
pub mod Operands
pub mod Rrr
pub mod Shifts
pub mod AddSub
pub mod Compare
pub mod MulDiv
pub mod Logical
pub mod Moves
pub mod Appends
use xob.Base.{Bool, true, false, []}
use xob.Vendor.{Vendor}
use xob.Vendor.Bad64
use xob.Vendor.Bad64.{Op}
use xob.Vendor.Iced.{Mnemonic}
use xob.InstrUtils.Codes.{and_rr_codes, or_rr_codes, xor_rr_codes}
use xob.Assembler.{Asm, pure, asm, ◌>>=◌, ◌>>◌}
use Shifts.{translate_shift}
use AddSub.{translate_add_sub}
use Compare.{translate_cmp_cmn, translate_ccmp, translate_cset, translate_csel}
use MulDiv.{translate_div, translate_madd}
use Logical.{translate_logical, translate_bic, translate_ubfiz}
use Moves.{translate_mov, translate_movk, translate_adrp, translate_extend, translate_movi}

abbrev pub handled : Asm (Unit {0}) → Asm Bool
handled m = m >> pure true

module _ ⦃v : Vendor⦄ where
  unfoldable pub compile_op : Op → Bad64.Instruction → Asm Bool
  compile_op Op.nop i = handled (asm Mnemonic.nop [])
  compile_op Op.cmp i = handled (translate_cmp_cmn i)
  compile_op Op.cmn i = handled (translate_cmp_cmn i)
  compile_op Op.mov i = handled (translate_mov i)
  compile_op Op.and i = handled (translate_logical i and_rr_codes)
  compile_op Op.orr i = handled (translate_logical i or_rr_codes)
  compile_op Op.eor i = handled (translate_logical i xor_rr_codes)
  compile_op Op.movk i = handled (translate_movk i)
  compile_op Op.adrp i = handled (translate_adrp i)
  compile_op Op.add i = handled (translate_add_sub i false)
  compile_op Op.sub i = handled (translate_add_sub i false)
  compile_op Op.adds i = handled (translate_add_sub i true)
  compile_op Op.subs i = handled (translate_add_sub i true)
  compile_op Op.asr i = handled (translate_shift i)
  compile_op Op.lsr i = handled (translate_shift i)
  compile_op Op.lsl i = handled (translate_shift i)
  compile_op Op.sxtw i = handled (translate_extend i)
  compile_op Op.sxth i = handled (translate_extend i)
  compile_op Op.sxtb i = handled (translate_extend i)
  compile_op Op.uxth i = handled (translate_extend i)
  compile_op Op.uxtb i = handled (translate_extend i)
  compile_op Op.udiv i = handled (translate_div i false)
  compile_op Op.sdiv i = handled (translate_div i true)
  compile_op Op.madd i = handled (translate_madd i)
  compile_op Op.csel i = handled (translate_csel i)
  compile_op Op.ccmp i = handled (translate_ccmp i)
  compile_op Op.cset i = handled (translate_cset i)
  compile_op Op.movi i = handled (translate_movi i)
  compile_op Op.bic i = handled (translate_bic i)
  compile_op Op.ubfiz i = handled (translate_ubfiz i)
  compile_op _ i = pure false

  unfoldable pub compile_instr : Bad64.Instruction → Asm Bool
  unfolding compile_op
  compile_instr arm_instr = compile_op arm_instr.op arm_instr
