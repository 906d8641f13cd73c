-- ===== src/Arith/MulDiv.antt =====
-- src/runner/compiler/arith.rs: UDIV, SDIV and MADD.
use xob.Base.{Bool, true, false, [], ◌∷◌}
use xob.Outcome.{Outcome, ok, panic}
use xob.Vendor.{Vendor}
use xob.Vendor.Bad64
use xob.Vendor.Iced.{Code, OpKind, Mnemonic, Arg, rdx, edx}
use xob.Register.{RegClass, RegTranslation, scratch, scratch_translation}
use xob.Register.Access.{set_operand}
use xob.InstrUtils.{make_mov_rr}
use xob.Arith.Operands.{operand_reg}
use xob.Assembler.{Asm, lift, asm, add_instruction, construct, blank, no_op, ◌>>=◌, ◌>>◌}

unfoldable pub div_code : Bool → RegClass → Outcome Code
div_code true RegClass.gpr32 = ok Code.idiv_rm32
div_code false RegClass.gpr32 = ok Code.div_rm32
div_code true RegClass.gpr64 = ok Code.idiv_rm64
div_code false RegClass.gpr64 = ok Code.div_rm64
div_code _ _ = panic

unfoldable pub mul_add_codes : RegClass → Outcome (Code × Code)
mul_add_codes RegClass.gpr32 = ok (Code.mul_rm32, Code.add_r32_rm32)
mul_add_codes RegClass.gpr64 = ok (Code.mul_rm64, Code.add_r64_rm64)
mul_add_codes _ = panic

module _ ⦃v : Vendor⦄ where
  -- The upper half of the dividend.
  unfoldable pub extend_dividend : Bool → Asm (Unit {0})
  extend_dividend true = asm Mnemonic.cdq []
  extend_dividend false = asm Mnemonic.xor (Arg.reg edx ∷ Arg.reg edx ∷ [])

  unfoldable pub divide :
      Bool → RegClass → RegTranslation → RegTranslation → RegTranslation → Asm (Unit {0})
  unfolding extend_dividend div_code
  divide signed c dest src1 src2 = do
    asm Mnemonic.push (Arg.reg rdx ∷ [])
    make_mov_rr c (scratch_translation c) src1
    extend_dividend signed
    code ← lift (div_code signed c)
    div ← construct (blank code no_op no_op no_op)
    div' ← lift (set_operand src2 div 0)
    add_instruction div'
    make_mov_rr c dest (scratch_translation c)
    asm Mnemonic.pop (Arg.reg rdx ∷ [])

  unfoldable pub translate_div : Bad64.Instruction → Bool → Asm (Unit {0})
  unfolding divide
  translate_div arm_instr signed = do
    (dest, c) ← operand_reg arm_instr 0
    (src1, _) ← operand_reg arm_instr 1
    (src2, _) ← operand_reg arm_instr 2
    divide signed c dest src1 src2

  unfoldable pub multiply_add :
      RegClass → RegTranslation → RegTranslation → RegTranslation → RegTranslation → Asm (Unit {0})
  unfolding mul_add_codes
  multiply_add c dest src1 src2 src3 = do
    asm Mnemonic.push (Arg.reg rdx ∷ [])
    make_mov_rr c (scratch_translation c) src1
    (mul_code, add_code) ← lift (mul_add_codes c)
    mul ← construct (blank mul_code no_op no_op no_op)
    mul' ← lift (set_operand src2 mul 0)
    add_instruction mul'
    add ← construct (blank add_code (OpKind.register (scratch c)) no_op no_op)
    add' ← lift (set_operand src3 add 1)
    add_instruction add'
    make_mov_rr c dest (scratch_translation c)
    asm Mnemonic.pop (Arg.reg rdx ∷ [])

  -- The source reads the addend from operand 2, as it does the multiplier.
  unfoldable pub translate_madd : Bad64.Instruction → Asm (Unit {0})
  unfolding multiply_add
  translate_madd arm_instr = do
    (dest, c) ← operand_reg arm_instr 0
    (src1, _) ← operand_reg arm_instr 1
    (src2, _) ← operand_reg arm_instr 2
    (src3, _) ← operand_reg arm_instr 2
    multiply_add c dest src1 src2 src3
