-- ===== src/Register/Access.antt =====
-- src/runner/compiler/register.rs: how a translated register becomes an operand of an instruction,
-- and the loads and stores around an instruction that takes registers only.
use xob.Base.{ℕ, [], ◌∷◌}
use xob.Outcome.{Outcome, ok, panic}
use xob.Vendor.{Vendor}
use xob.Vendor.Iced.{Arg, Mnemonic, OpKind, Instruction, r15, eax}
use xob.Register.{RegClass, RegTranslation, reg_operand}
use xob.InstrUtils.Indirect.{load_indirect, store_indirect}
use xob.Assembler.{Asm, asm, pure, set_op}

unfoldable pub set_operand : RegTranslation → Instruction → ℕ → Outcome Instruction
set_operand (RegTranslation.direct r) i k = ok (set_op i k (OpKind.register r))
set_operand (RegTranslation.indirect o _) i k =
    ok (record (set_op i k OpKind.memory) { base = r15; displacement = o; displ_size = 1 })
set_operand (RegTranslation.zero _) i k = panic

unfoldable pub set_reg_operand : RegTranslation → Instruction → ℕ → Instruction
unfolding reg_operand
set_reg_operand t i k = set_op i k (OpKind.register (reg_operand t))

unfoldable pub set_memory_base : RegTranslation → Instruction → Instruction
unfolding reg_operand
set_memory_base t i = record i { base = reg_operand t }

unfoldable pub set_memory_index : RegTranslation → Instruction → Instruction
unfolding reg_operand
set_memory_index t i = record i { index = reg_operand t }

module _ ⦃v : Vendor⦄ where
  unfoldable pub pre_read : RegTranslation → RegClass → Asm (Unit {0})
  unfolding load_indirect asm
  pre_read (RegTranslation.direct _) c = pure tt
  pre_read (RegTranslation.indirect o _) c = load_indirect c o
  pre_read (RegTranslation.zero _) c = asm Mnemonic.xor (Arg.reg eax ∷ Arg.reg eax ∷ [])

  unfoldable pub post_write : RegTranslation → RegClass → Asm (Unit {0})
  unfolding store_indirect
  post_write (RegTranslation.direct _) c = pure tt
  post_write (RegTranslation.zero _) c = pure tt
  post_write (RegTranslation.indirect o _) c = store_indirect c o
