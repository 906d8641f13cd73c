-- ===== src/LoadStore/Addressing.antt =====
-- src/runner/compiler/load_store.rs: the base register and the offset of a memory operand.
use xob.Base.{ℕ, ◌+◌, ◌%◌, ◌^◌, Bool, true, false, ◌||◌, List, Option, none, some}
use xob.Outcome.{Outcome, ok, panic}
use xob.Vendor.{Vendor}
use xob.Vendor.Bad64
use xob.Vendor.Bad64.{Reg, Imm, Shift}
use xob.Vendor.Iced.{Register, Code, OpKind, Instruction, rax, r15}
use xob.Words.{low32, sext32}
use xob.Register.{RegClass, RegTranslation, translate_reg, is_indirect}
use xob.InstrUtils.Codes.{add_rr_codes}
use xob.InstrUtils.{get_alt_reg, make_mov_rr, make_rr, when}
use xob.Arith.Shifts.{load_shifted}
use xob.Assembler.{
  Asm, pure, lift, add_instruction, construct, blank, no_op, with_base_displ, ◌>>=◌, ◌>>◌,
}

-- `imm as i32`
unfoldable pub any_offset_sign : Imm → ℕ
any_offset_sign (Imm.signed n) = low32 n
any_offset_sign (Imm.unsigned n) = low32 n

-- `offset` and `post_index_offset` are `i32` patterns.
pub record AddrModeInfo : Type 0 where
  pub base_reg : Register
  pub base_reg_translation : RegTranslation
  pub offset : ℕ
  pub post_index_offset : Option ℕ
  pub write_back_base_reg : Bool
  pub pop_base_reg : Bool

-- `MemoryOperand::with_base_displ(base_reg, offset as i64 + extra_offset)`
unfoldable pub memory_operand : AddrModeInfo → ℕ → Instruction → Instruction
memory_operand info extra_offset =
    with_base_displ info.base_reg ((sext32 info.offset + extra_offset) % 2 ^ 64)

-- The base register, its immediate, and the offset register with its shift.
unfoldable pub address_parts : Bad64.Operand → Outcome (Reg × Imm × Option (Reg × Option Shift))
address_parts (Bad64.Operand.mem_offset reg offset) = ok (reg, offset, none)
address_parts (Bad64.Operand.mem_pre_idx reg imm) = ok (reg, imm, none)
address_parts (Bad64.Operand.mem_post_idx_imm reg imm) = ok (reg, imm, none)
address_parts (Bad64.Operand.mem_ext base offset shift) =
    ok (base, Imm.unsigned 0, some (offset, shift))
address_parts _ = panic

abbrev pub has_offset : Option (Reg × Option Shift) → Bool
has_offset none = false
has_offset (some _) = true

abbrev pub direct_base : RegTranslation → Outcome Register
direct_base (RegTranslation.direct r) = ok r
direct_base _ = panic

module _ ⦃v : Vendor⦄ where
  -- The register that will hold the address, and whether it was pushed to be restored later.
  unfoldable pub choose_base :
      Bool → Bool → RegTranslation → List RegTranslation → Asm (Register × Bool)
  choose_base true true base blockers = do
    alt_reg ← lift (get_alt_reg blockers)
    push ← construct (blank Code.push_r64 (OpKind.register alt_reg) no_op no_op)
    add_instruction push
    pure (alt_reg, true)
  choose_base true false base blockers = pure (rax, false)
  choose_base false alternate base blockers = do r ← lift (direct_base base); pure (r, false)

  unfoldable pub load_offset : Register → RegTranslation → Option Shift → Asm (Unit {0})
  load_offset base_reg offset (some shift) =
      load_shifted base_reg RegClass.gpr64 offset RegClass.gpr64 shift
  load_offset base_reg offset none =
      make_mov_rr RegClass.gpr64 (RegTranslation.direct base_reg) offset

  -- Bring base and offset into the chosen register, where it is not the base itself.
  unfoldable pub load_address :
      Register → RegTranslation → Option (Reg × Option Shift) → Asm (Unit {0})
  unfolding load_offset
  load_address base_reg base (some (offset, shift)) = do
    (offset', _) ← lift (translate_reg offset none)
    load_offset base_reg offset' shift
    make_rr add_rr_codes RegClass.gpr64 (RegTranslation.direct base_reg) base
  load_address base_reg base none =
      when (is_indirect base) (make_mov_rr RegClass.gpr64 (RegTranslation.direct base_reg) base)

  -- What the addressing mode adds: a displacement, a write-back before or one after the access.
  unfoldable pub apply_mode : Bad64.Operand → ℕ → AddrModeInfo → Asm AddrModeInfo
  apply_mode (Bad64.Operand.mem_offset _ _) imm info = pure (record info { offset = imm })
  apply_mode (Bad64.Operand.mem_pre_idx _ _) imm info = do
    add ←
        construct
          (blank Code.add_rm64_imm32 (OpKind.register info.base_reg) (OpKind.immediate imm) no_op)
    add_instruction add
    pure (record info { write_back_base_reg = true })
  apply_mode (Bad64.Operand.mem_post_idx_imm _ _) imm info =
      pure (record info { post_index_offset = some imm; write_back_base_reg = true })
  apply_mode _ imm info = pure info

  unfoldable pub process_addr_mode : Bad64.Operand → Bool → List RegTranslation → Asm AddrModeInfo
  unfolding address_parts choose_base load_address apply_mode
  process_addr_mode mem alternate_indirect alt_blockers = do
    (base, imm, reg_offset) ← lift (address_parts mem)
    (base', _) ← lift (translate_reg base none)
    (base_reg, pushed) ←
        choose_base (has_offset reg_offset || is_indirect base') alternate_indirect base'
          alt_blockers
    load_address base_reg base' reg_offset
    apply_mode mem (any_offset_sign imm) (record {
      base_reg = base_reg;
      base_reg_translation = base';
      offset = 0;
      post_index_offset = none;
      write_back_base_reg = false;
      pop_base_reg = pushed;
    })

  unfoldable pub post_index : Option ℕ → Register → Asm (Unit {0})
  post_index none base_reg = pure tt
  post_index (some offset) base_reg = do
    add ←
        construct
          (blank Code.add_rm64_imm32 (OpKind.register base_reg) (OpKind.immediate offset) no_op)
    add_instruction add

  unfoldable pub write_back : RegTranslation → Bool → Register → Asm (Unit {0})
  write_back (RegTranslation.indirect o _) true base_reg = do
    mov ← construct (
        with_base_displ r15 o
          (blank Code.mov_rm64_r64 OpKind.memory (OpKind.register base_reg) no_op))
    add_instruction mov
  write_back _ _ base_reg = pure tt

  unfoldable pub restore_base : Bool → Register → Asm (Unit {0})
  restore_base true base_reg = do
    pop ← construct (blank Code.pop_r64 (OpKind.register base_reg) no_op no_op)
    add_instruction pop
  restore_base false base_reg = pure tt

  unfoldable pub finalize_addr_mode : AddrModeInfo → Asm (Unit {0})
  unfolding post_index write_back restore_base
  finalize_addr_mode info = do
    post_index info.post_index_offset info.base_reg
    write_back info.base_reg_translation info.write_back_base_reg info.base_reg
    restore_base info.pop_base_reg info.base_reg
