-- ===== src/InstrUtils.antt =====
-- src/runner/compiler/instr_utils.rs: the emitters that the instruction translators share.
pub mod Indirect
pub mod Codes
pub mod AltReg
pub mod Appends
use xob.Base.{ℕ, ◌^◌, ◌%◌, Bool, true, false, ◌||◌, List, [], ◌∷◌, if◌then◌else◌}
use xob.Outcome.{Outcome, ok, panic}
use xob.Vendor.{Vendor}
use xob.Vendor.Bad64
use xob.Vendor.Bad64.{Shift, Imm}
use xob.Vendor.Iced.{Register, Code, Arg, Mnemonic, OpKind, rax, r9, r10, r14}
use xob.Register.{RegClass, RegTranslation, scratch, is_indirect, translation_eq}
use xob.Register.Access.{set_operand, set_reg_operand, pre_read, post_write}
use xob.Assembler.{
  Asm, pure, lift, crash, asm, add_instruction, construct, blank, no_op, ◌>>=◌, ◌>>◌,
}
use Codes.{OpRrCodes, OpRiCodes, mov_rr_codes, xor_rr_codes, cmp_rr_codes}

module _ ⦃v : Vendor⦄ where
  abbrev pub when : Bool → Asm (Unit {0}) → Asm (Unit {0})
  when true m = m
  when false m = pure tt

  -- `(Indirect, Indirect)`: the destination goes through the scratch register.
  unfoldable pub rr_through_scratch :
      Code → RegClass → RegTranslation → RegTranslation → Bool → Bool → Asm (Unit {0})
  rr_through_scratch r_rm c dest src reads_dest writes_dest = do
    when reads_dest (pre_read dest c)
    instr ← construct (blank r_rm (OpKind.register (scratch c)) no_op no_op)
    let loaded = set_reg_operand dest instr 0
    done ← lift (set_operand src loaded 1)
    add_instruction done
    when writes_dest (post_write dest c)

  unfoldable pub rr_direct : Code → Code → RegTranslation → RegTranslation → Asm (Unit {0})
  rr_direct r_rm rm_r dest src = do
    instr ← construct (blank (if is_indirect src then r_rm else rm_r) no_op no_op no_op)
    i ← lift (set_operand dest instr 0)
    done ← lift (set_operand src i 1)
    add_instruction done

  unfoldable pub rr_for :
      Code → Code → RegClass → RegTranslation → RegTranslation → Bool → Bool → Asm (Unit {0})
  unfolding rr_through_scratch rr_direct
  rr_for r_rm rm_r c (RegTranslation.indirect o n) (RegTranslation.indirect p m) rd wr =
      rr_through_scratch r_rm c (RegTranslation.indirect o n) (RegTranslation.indirect p m) rd wr
  rr_for r_rm rm_r c dest src rd wr = rr_direct r_rm rm_r dest src

  unfoldable pub make_rr_impl :
      OpRrCodes → RegClass → RegTranslation → RegTranslation → Bool → Bool → Asm (Unit {0})
  unfolding rr_for
  make_rr_impl codes RegClass.gpr32 dest src rd wr =
      rr_for codes.r32_rm32 codes.rm32_r32 RegClass.gpr32 dest src rd wr
  make_rr_impl codes RegClass.gpr64 dest src rd wr =
      rr_for codes.r64_rm64 codes.rm64_r64 RegClass.gpr64 dest src rd wr
  make_rr_impl codes _ dest src rd wr = crash

  unfoldable pub make_rr : OpRrCodes → RegClass → RegTranslation → RegTranslation → Asm (Unit {0})
  unfolding make_rr_impl
  make_rr codes c dest src = make_rr_impl codes c dest src true true

  unfoldable pub make_mov_rr : RegClass → RegTranslation → RegTranslation → Asm (Unit {0})
  unfolding make_rr make_rr_impl
  make_mov_rr c dest (RegTranslation.zero _) = make_rr xor_rr_codes c dest dest
  make_mov_rr c dest src = make_rr_impl mov_rr_codes c dest src false true

  unfoldable pub make_cmp_rr : RegClass → RegTranslation → RegTranslation → Asm (Unit {0})
  unfolding make_rr_impl
  make_cmp_rr c src1 src2 = make_rr_impl cmp_rr_codes c src1 src2 true false

  unfoldable pub make_mov_ri64 : RegTranslation → ℕ → Asm (Unit {0})
  make_mov_ri64 dest imm = do
    instr ← construct (blank Code.mov_r64_imm64 no_op (OpKind.immediate imm) no_op)
    add_instruction (set_reg_operand dest instr 0)
    post_write dest RegClass.gpr64

  unfoldable pub ri_for : Code → RegTranslation → ℕ → Asm (Unit {0})
  ri_for code reg imm = do
    instr ← construct (blank code no_op (OpKind.immediate imm) no_op)
    done ← lift (set_operand reg instr 0)
    add_instruction done

  unfoldable pub make_ri : OpRiCodes → RegClass → RegTranslation → ℕ → Asm (Unit {0})
  unfolding ri_for
  make_ri codes RegClass.gpr32 reg imm = ri_for codes.rm32_imm32 reg imm
  make_ri codes RegClass.gpr64 reg imm = ri_for codes.rm64_imm32 reg imm
  make_ri codes _ reg imm = crash

  -- `mov rax, target; call rax`
  unfoldable pub make_call : ℕ → Asm (Unit {0})
  make_call target = do
    asm Mnemonic.mov (Arg.reg rax ∷ Arg.imm target ∷ [])
    asm Mnemonic.call (Arg.reg rax ∷ [])

unfoldable pub label_target : Bad64.Operand → Outcome ℕ
label_target (Bad64.Operand.label (Imm.unsigned target)) = ok target
label_target _ = panic

unfoldable pub get_shamt_from_shift : Shift → ℕ
get_shamt_from_shift (Shift.lsl n) = n
get_shamt_from_shift (Shift.lsr n) = n
get_shamt_from_shift (Shift.asr n) = n
get_shamt_from_shift (Shift.ror n) = n
get_shamt_from_shift (Shift.msl n) = n
get_shamt_from_shift (Shift.uxtb n) = n
get_shamt_from_shift (Shift.uxth n) = n
get_shamt_from_shift (Shift.uxtw n) = n
get_shamt_from_shift (Shift.uxtx n) = n
get_shamt_from_shift (Shift.sxtb n) = n
get_shamt_from_shift (Shift.sxth n) = n
get_shamt_from_shift (Shift.sxtw n) = n
get_shamt_from_shift (Shift.sxtx n) = n

-- `blockers.iter().any(|b| *b == RegTranslation::Direct(reg))`
unfoldable pub blocked : List RegTranslation → Register → Bool
blocked [] r = false
blocked (b ∷ bs) r = translation_eq b (RegTranslation.direct r) || blocked bs r

unfoldable pub first_free : List Register → List RegTranslation → Outcome Register
first_free [] blockers = panic
first_free (r ∷ rs) blockers = if blocked blockers r then first_free rs blockers else ok r

unfoldable pub get_alt_reg : List RegTranslation → Outcome Register
unfolding first_free blocked
get_alt_reg = first_free (r10 ∷ r9 ∷ r14 ∷ [])
