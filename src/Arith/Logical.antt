-- ===== src/Arith/Logical.antt =====
-- src/runner/compiler/arith.rs: AND, ORR, EOR, BIC and UBFIZ.
use xob.Base.{not, ◌&&◌, [], ◌∷◌, none}
use xob.Outcome.{Outcome, ok, err, panic, CompileError}
use xob.Vendor.{Vendor}
use xob.Vendor.Bad64
use xob.Vendor.Iced.{Code, OpKind, Mnemonic, Arg, rax, eax}
use xob.Words.{low32}
use xob.Register.{
  RegClass, RegTranslation, translate_reg, translation_eq, unwrap_unsigned, scratch,
  scratch_translation, reg_operand, is_indirect,
}
use xob.Register.Access.{set_operand, set_reg_operand, pre_read, post_write}
use xob.InstrUtils.Codes.{OpRrCodes, r_rm, for_class, mov_rr_codes, shl_ri_codes}
use xob.InstrUtils.{make_rr, make_mov_rr, when}
use xob.Arith.Operands.{operand, operand_reg, operand_imm}
use xob.Arith.Rrr.{make_rrr}
use xob.Assembler.{
  Asm, pure, lift, crash, asm, add_instruction, construct, blank, no_op, ◌>>=◌, ◌>>◌,
}

unfoldable pub andn_code : RegClass → Outcome Code
andn_code RegClass.gpr64 = ok Code.vex_andn_r64_r64_rm64
andn_code RegClass.gpr32 = ok Code.vex_andn_r32_r32_rm32
andn_code _ = err CompileError.unsupported_instruction

unfoldable pub bzhi_code : RegClass → Outcome Code
bzhi_code RegClass.gpr64 = ok Code.vex_bzhi_r64_rm64_r64
bzhi_code RegClass.gpr32 = ok Code.vex_bzhi_r32_rm32_r32
bzhi_code _ = panic

module _ ⦃v : Vendor⦄ where
  unfoldable pub logical_imm :
      OpRrCodes → RegClass → RegTranslation → RegTranslation → Bad64.Imm → Asm (Unit {0})
  logical_imm codes c dest src1 imm = do
    n ← lift (unwrap_unsigned imm)
    when (not (translation_eq dest src1)) (make_mov_rr c dest src1)
    asm Mnemonic.mov (Arg.reg rax ∷ Arg.imm n ∷ [])
    make_rr codes c dest (scratch_translation c)

  unfoldable pub logical_operand :
      OpRrCodes → RegClass → RegTranslation → RegTranslation → Bad64.Operand → Asm (Unit {0})
  unfolding logical_imm
  logical_operand codes c dest src1 (Bad64.Operand.reg reg _) = do
    (src2, _) ← lift (translate_reg reg none)
    make_rrr codes dest src1 src2 c
  logical_operand codes c dest src1 (Bad64.Operand.imm64 imm _) = logical_imm codes c dest src1 imm
  logical_operand codes c dest src1 (Bad64.Operand.imm32 imm _) = logical_imm codes c dest src1 imm
  logical_operand codes c dest src1 _ = crash

  unfoldable pub translate_logical : Bad64.Instruction → OpRrCodes → Asm (Unit {0})
  unfolding logical_operand
  translate_logical arm_instr codes = do
    (dest, c) ← operand_reg arm_instr 0
    (src1, _) ← operand_reg arm_instr 1
    op2 ← operand arm_instr 2
    logical_operand codes c dest src1 op2

  unfoldable pub translate_bic : Bad64.Instruction → Asm (Unit {0})
  unfolding andn_code
  translate_bic arm_instr = do
    (dest, c) ← operand_reg arm_instr 0
    (src1, _) ← operand_reg arm_instr 1
    (src2, _) ← operand_reg arm_instr 2
    code ← lift (andn_code c)
    pre_read src2 c
    andn ← construct (blank code no_op no_op no_op)
    let loaded = set_reg_operand src2 (set_reg_operand dest andn 0) 1
    andn' ← lift (set_operand src1 loaded 2)
    add_instruction andn'
    post_write dest c

  -- The `mov dest, src` that the source builds, and never adds to the code.
  unfoldable pub unused_mov : RegClass → RegTranslation → RegTranslation → Asm (Unit {0})
  unused_mov c dest src = do
    mov_code ← lift (r_rm mov_rr_codes c)
    mov ← construct (blank mov_code no_op no_op no_op)
    _ ← lift (set_operand src (set_reg_operand dest mov 0) 1)
    pure tt

  unfoldable pub translate_ubfiz : Bad64.Instruction → Asm (Unit {0})
  unfolding bzhi_code unused_mov
  translate_ubfiz arm_instr = do
    (dest, c) ← operand_reg arm_instr 0
    (src, _) ← operand_reg arm_instr 1
    lsb ← operand_imm arm_instr 2
    width ← operand_imm arm_instr 3
    when (not (translation_eq dest src) && not (is_indirect dest)) (unused_mov c dest src)
    code ← lift (bzhi_code c)
    asm Mnemonic.mov (Arg.reg eax ∷ Arg.imm (low32 width) ∷ [])
    bzhi ←
        construct
          (blank code (OpKind.register (reg_operand dest)) no_op (OpKind.register (scratch c)))
    bzhi' ← lift (set_operand src bzhi 1)
    add_instruction bzhi'
    shl_code ← lift (for_class shl_ri_codes c)
    shl ←
        construct
          (blank shl_code (OpKind.register (reg_operand dest)) (OpKind.immediate (low32 lsb)) no_op)
    add_instruction shl
    post_write dest c
