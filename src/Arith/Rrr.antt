-- ===== src/Arith/Rrr.antt =====
-- src/runner/compiler/arith.rs: three-operand operations as two-operand instructions.
use xob.Base.{ℕ, if◌then◌else◌}
use xob.Vendor.{Vendor}
use xob.Vendor.Iced.{Code, OpKind}
use xob.Register.{RegClass, RegTranslation, translation_eq}
use xob.Register.Access.{set_operand, set_reg_operand, post_write}
use xob.InstrUtils.Codes.{OpRrCodes, OpRiCodes, r_rm, for_class, mov_rr_codes}
use xob.InstrUtils.{make_rr, make_ri}
use xob.Assembler.{Asm, lift, crash, add_instruction, construct, blank, no_op, ◌>>=◌, ◌>>◌}

module _ ⦃v : Vendor⦄ where
  -- `dest` differs from `src1`: move `src1` to `dest` (or to the scratch register), then operate.
  unfoldable pub move_then_op :
      Code → Code → RegTranslation → RegTranslation → RegTranslation → RegClass → Asm (Unit {0})
  move_then_op mov_code op_code dest src1 src2 c = do
    mov ← construct (blank mov_code no_op no_op no_op)
    mov' ← lift (set_operand src1 (set_reg_operand dest mov 0) 1)
    add_instruction mov'
    op ← construct (blank op_code no_op no_op no_op)
    op' ← lift (set_operand src2 (set_reg_operand dest op 0) 1)
    add_instruction op'
    post_write dest c

  unfoldable pub rrr_codes :
      OpRrCodes → RegTranslation → RegTranslation → RegTranslation → RegClass → Asm (Unit {0})
  unfolding move_then_op
  rrr_codes codes dest src1 src2 RegClass.gpr64 =
      move_then_op Code.mov_r64_rm64 codes.r64_rm64 dest src1 src2 RegClass.gpr64
  rrr_codes codes dest src1 src2 RegClass.gpr32 =
      move_then_op Code.mov_r32_rm32 codes.r32_rm32 dest src1 src2 RegClass.gpr32
  rrr_codes codes dest src1 src2 _ = crash

  unfoldable pub make_rrr :
      OpRrCodes → RegTranslation → RegTranslation → RegTranslation → RegClass → Asm (Unit {0})
  unfolding rrr_codes
  make_rrr codes dest src1 src2 c =
      if translation_eq dest src1
      then make_rr codes c dest src2
      else rrr_codes codes dest src1 src2 c

  unfoldable pub move_then_imm :
      OpRiCodes → RegTranslation → RegTranslation → ℕ → RegClass → Asm (Unit {0})
  move_then_imm codes dest src imm c = do
    mov_code ← lift (r_rm mov_rr_codes c)
    mov ← construct (blank mov_code no_op no_op no_op)
    mov' ← lift (set_operand src (set_reg_operand dest mov 0) 1)
    add_instruction mov'
    op_code ← lift (for_class codes c)
    op ← construct (blank op_code no_op (OpKind.immediate imm) no_op)
    add_instruction (set_reg_operand dest op 0)
    post_write dest c

  unfoldable pub make_rri :
      OpRiCodes → RegTranslation → RegTranslation → ℕ → RegClass → Asm (Unit {0})
  unfolding move_then_imm
  make_rri codes dest src imm c =
      if translation_eq dest src
      then make_ri codes c dest imm
      else move_then_imm codes dest src imm c
