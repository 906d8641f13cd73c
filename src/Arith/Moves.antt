-- ===== src/Arith/Moves.antt =====
-- src/runner/compiler/arith.rs: MOV, MOVK, ADRP, MOVI and the sign and zero extensions.
use xob.Base.{ℕ, [], ◌∷◌, Option, none, some, ltb, ◌==◌, if◌then◌else◌}
use xob.Outcome.{Outcome, ok, panic, CompileError}
use xob.Vendor.{Vendor}
use xob.Vendor.Bad64
use xob.Vendor.Bad64.{Op, Shift}
use xob.Vendor.Iced.{Code, OpKind, Mnemonic, Arg, rax}
use xob.Words.{low32, not64, shl64}
use xob.Register.{
  RegClass, RegTranslation, translate_reg, unwrap_unsigned, unwrap_imm, scratch,
  scratch_translation, is_gpr64,
}
use xob.Register.Access.{set_operand, set_reg_operand, post_write}
use xob.InstrUtils.Codes.{mov_ri_codes, and_ri_codes, or_ri_codes}
use xob.InstrUtils.{make_ri, make_mov_rr, make_mov_ri64, label_target}
use xob.Arith.Operands.{operand, operand_reg}
use xob.Arith.Shifts.{load_shifted}
use xob.Assembler.{
  Asm, pure, lift, fault, crash, asm, add_instruction, construct, blank, no_op, ◌>>=◌, ◌>>◌,
}

-- The amount of an `LSL`, 0 without one.
unfoldable pub movk_shift : Option Shift → Outcome ℕ
movk_shift none = ok 0
movk_shift (some (Shift.lsl n)) = ok n
movk_shift (some _) = panic

-- The extension that an instruction performs.
unfoldable pub extension : Op → Outcome Shift
extension Op.sxtw = ok (Shift.sxtw 0)
extension Op.sxth = ok (Shift.sxth 0)
extension Op.sxtb = ok (Shift.sxtb 0)
extension Op.uxth = ok (Shift.uxth 0)
extension Op.uxtb = ok (Shift.uxtb 0)
extension _ = panic

module _ ⦃v : Vendor⦄ where
  unfoldable pub mov_imm : RegClass → RegTranslation → Bad64.Imm → Asm (Unit {0})
  mov_imm c dest imm = do n ← lift (unwrap_unsigned imm); make_ri mov_ri_codes c dest (low32 n)

  unfoldable pub mov_operand : RegClass → RegTranslation → Bad64.Operand → Asm (Unit {0})
  unfolding mov_imm
  mov_operand c dest (Bad64.Operand.reg reg _) = do
    (src, _) ← lift (translate_reg reg none)
    make_mov_rr c dest src
  mov_operand c dest (Bad64.Operand.imm64 imm _) = mov_imm c dest imm
  mov_operand c dest (Bad64.Operand.imm32 imm _) = mov_imm c dest imm
  mov_operand c dest _ = crash

  unfoldable pub translate_mov : Bad64.Instruction → Asm (Unit {0})
  unfolding mov_operand
  translate_mov arm_instr = do
    (dest, c) ← operand_reg arm_instr 0
    op1 ← operand arm_instr 1
    mov_operand c dest op1

  -- `op dest, rax`
  unfoldable pub with_rax : Code → RegTranslation → Asm (Unit {0})
  with_rax code dest = do
    instr ← construct (blank code no_op (OpKind.register rax) no_op)
    instr' ← lift (set_operand dest instr 0)
    add_instruction instr'

  -- Clear the bits of `mask`'s complement, then set those of `imm`.
  unfoldable pub movk_bits : RegClass → RegTranslation → ℕ → ℕ → ℕ → Asm (Unit {0})
  unfolding with_rax
  movk_bits c dest shift mask imm =
      if ltb 16 shift
      then (do
        asm Mnemonic.mov (Arg.reg rax ∷ Arg.imm mask ∷ [])
        with_rax Code.and_rm64_r64 dest
        asm Mnemonic.mov (Arg.reg rax ∷ Arg.imm imm ∷ [])
        with_rax Code.or_rm64_r64 dest)
      else do make_ri and_ri_codes c dest (low32 mask); make_ri or_ri_codes c dest (low32 imm)

  unfoldable pub translate_movk : Bad64.Instruction → Asm (Unit {0})
  unfolding movk_shift movk_bits
  translate_movk arm_instr = do
    (dest, c) ← operand_reg arm_instr 0
    op1 ← operand arm_instr 1
    (imm, amount) ← lift (unwrap_imm op1)
    n ← lift (unwrap_unsigned imm)
    shift ← lift (movk_shift amount)
    bits ← lift (shl64 n shift)
    field ← lift (shl64 0xffff shift)
    movk_bits c dest shift (not64 field) bits

  unfoldable pub translate_adrp : Bad64.Instruction → Asm (Unit {0})
  translate_adrp arm_instr = do
    (dest, c) ← operand_reg arm_instr 0
    op1 ← (if is_gpr64 c then operand arm_instr 1 else crash)
    addr ← lift (label_target op1)
    make_mov_ri64 dest addr

  unfoldable pub extend_into :
      RegClass → RegTranslation → RegClass → RegTranslation → Shift → Asm (Unit {0})
  extend_into c (RegTranslation.direct dest) src_class src shift =
      load_shifted dest c src src_class shift
  extend_into c (RegTranslation.indirect o n) src_class src shift = do
    load_shifted (scratch c) c src src_class shift
    make_mov_rr c (RegTranslation.indirect o n) (scratch_translation c)
  extend_into c (RegTranslation.zero _) src_class src shift = crash

  unfoldable pub translate_extend : Bad64.Instruction → Asm (Unit {0})
  unfolding extension extend_into
  translate_extend arm_instr = do
    (dest, c) ← operand_reg arm_instr 0
    (src, src_class) ← operand_reg arm_instr 1
    shift ← lift (extension arm_instr.op)
    extend_into c dest src_class src shift

  -- `xorps dest, dest`
  unfoldable pub zero_vector : RegClass → RegTranslation → Asm (Unit {0})
  zero_vector c dest = do
    xor ← construct (blank Code.xorps_xmm_xmmm128 no_op no_op no_op)
    add_instruction (set_reg_operand dest (set_reg_operand dest xor 0) 1)
    post_write dest c

  -- `assert_eq!(shift, None)`
  unfoldable pub no_shift : Option Shift → Asm (Unit {0})
  no_shift none = pure tt
  no_shift (some _) = crash

  unfoldable pub translate_movi : Bad64.Instruction → Asm (Unit {0})
  unfolding zero_vector no_shift
  translate_movi arm_instr = do
    (dest, c) ← operand_reg arm_instr 0
    op1 ← operand arm_instr 1
    (imm, shift) ← lift (unwrap_imm op1)
    no_shift shift
    n ← lift (unwrap_unsigned imm)
    if n == 0 then zero_vector c dest else fault CompileError.unsupported_instruction
