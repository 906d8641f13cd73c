-- ===== src/Arith/Operands.antt =====
-- How the translators of src/runner/compiler/*.rs read the operands of an instruction.
use xob.Base.{ℕ}
use xob.Outcome.{index}
use xob.Vendor.{Vendor}
use xob.Vendor.Bad64
use xob.Vendor.Bad64.{Condition}
use xob.Register.{
  RegClass, RegTranslation, translate_reg, unwrap_reg, unwrap_imm, unwrap_unsigned, unwrap_cond,
}
use xob.Assembler.{Asm, lift, ◌>>=◌}

-- `operands[k]`
abbrev pub operand : Bad64.Instruction → ℕ → Asm Bad64.Operand
operand i k = lift (index i.operands k)

-- `unwrap_unsigned(unwrap_imm(operands[k]).0)`
unfoldable pub operand_imm : Bad64.Instruction → ℕ → Asm ℕ
unfolding unwrap_imm unwrap_unsigned
operand_imm i k = do op ← operand i k; (imm, _) ← lift (unwrap_imm op); lift (unwrap_unsigned imm)

-- `unwrap_cond(operands[k])`
unfoldable pub operand_cond : Bad64.Instruction → ℕ → Asm Condition
unfolding unwrap_cond
operand_cond i k = do op ← operand i k; lift (unwrap_cond op)

module _ ⦃v : Vendor⦄ where
  -- `translate_reg(unwrap_reg(operands[k]))?`
  unfoldable pub operand_reg : Bad64.Instruction → ℕ → Asm (RegTranslation × RegClass)
  unfolding unwrap_reg
  operand_reg i k = do op ← operand i k; (r, a) ← lift (unwrap_reg op); lift (translate_reg r a)
