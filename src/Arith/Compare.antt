-- ===== src/Arith/Compare.antt =====
-- src/runner/compiler/arith.rs: CMP, CMN, CCMP, CSET and CSEL.
use Prim.Native.Nat.{bit_or}
use xob.Base.{ℕ, ◌-◌, ◌^◌, Bool, true, false, [], ◌∷◌, none, ◌==◌, if◌then◌else◌}
use xob.Vendor.{Vendor}
use xob.Vendor.Bad64
use xob.Vendor.Bad64.{Op, Condition}
use xob.Vendor.Iced.{Code, OpKind, Mnemonic, Arg, rax, eax, al}
use xob.Words.{low32, bit_set}
use xob.Register.{
  RegClass, NativeRegClass, RegTranslation, translate_reg, unwrap_unsigned, with_native_class,
  scratch, scratch_translation, is_gpr64,
}
use xob.Register.Access.{set_operand}
use xob.InstrUtils.Codes.{add_rr_codes, cmp_ri_codes, add_ri_codes}
use xob.InstrUtils.{make_rr, make_ri, make_mov_rr, make_cmp_rr}
use xob.Branch.Conditions.{make_jcc}
use xob.Arith.Operands.{operand, operand_reg, operand_cond, operand_imm}
use xob.Assembler.{
  Asm, lift, crash, asm, add_instruction, construct, create_label, set_label, zero_bytes, blank,
  no_op, ◌>>=◌, ◌>>◌,
}

abbrev pub is_cmp : Op → Bool
is_cmp Op.cmp = true
is_cmp _ = false

-- `if cond { mask |= bit }`
abbrev pub or_if : Bool → ℕ → ℕ → ℕ
or_if true bit mask = bit_or mask bit
or_if false bit mask = mask

-- The flags of EFLAGS for the ARM flags `nzcv`: V to OF, C to CF, Z to ZF, N to SF.
unfoldable pub eflags_mask : ℕ → ℕ
eflags_mask nzcv =
    or_if (bit_set nzcv 3) (2 ^ 7) (
      or_if (bit_set nzcv 2) (2 ^ 6) (or_if (bit_set nzcv 1) 1 (or_if (bit_set nzcv 0) (2 ^ 11) 0)))

-- `make_setcc`: the method that puts a condition into AL.
unfoldable pub setcc : Condition → Mnemonic
setcc Condition.eq = Mnemonic.sete
setcc Condition.ne = Mnemonic.setne
setcc Condition.lt = Mnemonic.setl
setcc Condition.ge = Mnemonic.setge
setcc Condition.gt = Mnemonic.setg
setcc Condition.le = Mnemonic.setle
setcc Condition.cc = Mnemonic.setnc
setcc Condition.cs = Mnemonic.setc
setcc Condition.hi = Mnemonic.seta
setcc Condition.ls = Mnemonic.setbe
setcc Condition.vc = Mnemonic.setno
setcc Condition.vs = Mnemonic.seto
setcc Condition.mi = Mnemonic.sets
setcc Condition.pl = Mnemonic.setns
setcc Condition.al = Mnemonic.mov
setcc Condition.nv = Mnemonic.mov

-- The codes of `translate_csel` for the two classes.
unfoldable pub cmov_codes : Condition → Code × Code
cmov_codes Condition.eq = (Code.cmove_r32_rm32, Code.cmove_r64_rm64)
cmov_codes Condition.ne = (Code.cmovne_r32_rm32, Code.cmovne_r64_rm64)
cmov_codes Condition.cs = (Code.cmovae_r32_rm32, Code.cmovae_r64_rm64)
cmov_codes Condition.cc = (Code.cmovb_r32_rm32, Code.cmovb_r64_rm64)
cmov_codes Condition.mi = (Code.cmovs_r32_rm32, Code.cmovs_r64_rm64)
cmov_codes Condition.pl = (Code.cmovns_r32_rm32, Code.cmovns_r64_rm64)
cmov_codes Condition.vs = (Code.cmovo_r32_rm32, Code.cmovo_r64_rm64)
cmov_codes Condition.vc = (Code.cmovno_r32_rm32, Code.cmovno_r64_rm64)
cmov_codes Condition.hi = (Code.cmova_r32_rm32, Code.cmova_r64_rm64)
cmov_codes Condition.ls = (Code.cmovbe_r32_rm32, Code.cmovbe_r64_rm64)
cmov_codes Condition.ge = (Code.cmovge_r32_rm32, Code.cmovge_r64_rm64)
cmov_codes Condition.lt = (Code.cmovl_r32_rm32, Code.cmovl_r64_rm64)
cmov_codes Condition.gt = (Code.cmovg_r32_rm32, Code.cmovg_r64_rm64)
cmov_codes Condition.le = (Code.cmovle_r32_rm32, Code.cmovle_r64_rm64)
cmov_codes Condition.al = (Code.mov_r32_rm32, Code.mov_r64_rm64)
cmov_codes Condition.nv = (Code.mov_r32_rm32, Code.mov_r64_rm64)

module _ ⦃v : Vendor⦄ where
  unfoldable pub compare_reg : Bool → RegClass → RegTranslation → RegTranslation → Asm (Unit {0})
  compare_reg true c src1 src2 = make_cmp_rr c src1 src2
  compare_reg false c src1 src2 = do
    make_mov_rr c (scratch_translation c) src1
    make_rr add_rr_codes c (scratch_translation c) src2

  unfoldable pub compare_imm : Bool → RegClass → RegTranslation → Bad64.Imm → Asm (Unit {0})
  compare_imm true c src1 imm = do
    n ← lift (unwrap_unsigned imm)
    make_ri cmp_ri_codes c src1 (low32 n)
  compare_imm false c src1 imm = do
    n ← lift (unwrap_unsigned imm)
    make_mov_rr c (scratch_translation c) src1
    make_ri add_ri_codes c (scratch_translation c) (low32 n)

  -- The second operand of CMP (`true`), CMN, and of CCMP, which compares as CMP does.
  unfoldable pub compare_operand : Bool → RegClass → RegTranslation → Bad64.Operand → Asm (Unit {0})
  unfolding compare_reg compare_imm
  compare_operand cmp c src1 (Bad64.Operand.reg reg _) = do
    (src2, _) ← lift (translate_reg reg none)
    compare_reg cmp c src1 src2
  compare_operand cmp c src1 (Bad64.Operand.imm64 imm _) = compare_imm cmp c src1 imm
  compare_operand cmp c src1 (Bad64.Operand.imm32 imm _) = compare_imm cmp c src1 imm
  compare_operand cmp c src1 _ = crash

  unfoldable pub translate_cmp_cmn : Bad64.Instruction → Asm (Unit {0})
  unfolding compare_operand
  translate_cmp_cmn arm_instr = do
    (src1, c) ← operand_reg arm_instr 0
    op1 ← operand arm_instr 1
    compare_operand (is_cmp arm_instr.op) c src1 op1

  unfoldable pub set_flags : ℕ → Asm (Unit {0})
  unfolding eflags_mask
  set_flags nzcv =
      if nzcv == 0
      then (do
        asm Mnemonic.mov (Arg.reg eax ∷ Arg.imm 0 ∷ [])
        asm Mnemonic.add (Arg.reg eax ∷ Arg.imm 1 ∷ []))
      else do
        asm Mnemonic.pushfq []
        asm Mnemonic.pop (Arg.reg rax ∷ [])
        asm Mnemonic.and (Arg.reg rax ∷ Arg.imm (2 ^ 32 - 1 - 0x08c1) ∷ [])
        asm Mnemonic.or (Arg.reg rax ∷ Arg.imm (eflags_mask nzcv) ∷ [])
        asm Mnemonic.push (Arg.reg rax ∷ [])
        asm Mnemonic.popfq []

  unfoldable pub translate_ccmp : Bad64.Instruction → Asm (Unit {0})
  unfolding compare_operand
  translate_ccmp arm_instr = do
    (src1, c) ← operand_reg arm_instr 0
    cond ← operand_cond arm_instr 3
    end_label ← create_label
    cond_pass_label ← create_label
    make_jcc cond cond_pass_label
    nzcv ← operand_imm arm_instr 2
    set_flags nzcv
    asm Mnemonic.jmp (Arg.label end_label ∷ [])
    set_label cond_pass_label
    op1 ← operand arm_instr 1
    compare_operand true c src1 op1
    set_label end_label
    zero_bytes

  unfoldable pub set_al : Condition → Asm (Unit {0})
  unfolding setcc
  set_al Condition.al = asm Mnemonic.mov (Arg.reg al ∷ Arg.imm 1 ∷ [])
  set_al Condition.nv = asm Mnemonic.mov (Arg.reg al ∷ Arg.imm 1 ∷ [])
  set_al cond = asm (setcc cond) (Arg.reg al ∷ [])

  -- AL, zero-extended into the register.
  unfoldable pub widen_al : RegTranslation → Asm (Unit {0})
  widen_al (RegTranslation.direct reg) = do
    instr ← construct (blank Code.movzx_r32_rm8 (OpKind.register reg) (OpKind.register al) no_op)
    add_instruction instr
  widen_al (RegTranslation.indirect o n) = do
    asm Mnemonic.movzx (Arg.reg eax ∷ Arg.reg al ∷ [])
    mov ← construct (blank Code.mov_rm32_r32 no_op (OpKind.register eax) no_op)
    mov' ← lift (set_operand (RegTranslation.indirect o n) mov 0)
    add_instruction mov'
  widen_al (RegTranslation.zero _) = crash

  unfoldable pub make_setcc : Condition → RegTranslation → Asm (Unit {0})
  unfolding set_al widen_al
  make_setcc cond reg = do
    set_al cond
    reg' ← lift (with_native_class reg NativeRegClass.gpr32)
    widen_al reg'

  unfoldable pub translate_cset : Bad64.Instruction → Asm (Unit {0})
  unfolding make_setcc
  translate_cset arm_instr = do
    (dest, _) ← operand_reg arm_instr 0
    cond ← operand_cond arm_instr 1
    make_setcc cond dest

  -- `mov scratch, src2; cmov<cond> scratch, src1; mov dest, scratch`
  unfoldable pub select :
      Condition → RegClass → RegTranslation → RegTranslation → RegTranslation → Asm (Unit {0})
  unfolding cmov_codes
  select cond c dest src1 src2 = do
    make_mov_rr c (scratch_translation c) src2
    let code = if is_gpr64 c then (cmov_codes cond).1 else (cmov_codes cond).0
    cmov ← construct (blank code (OpKind.register (scratch c)) no_op no_op)
    cmov' ← lift (set_operand src1 cmov 1)
    add_instruction cmov'
    make_mov_rr c dest (scratch_translation c)

  unfoldable pub translate_csel : Bad64.Instruction → Asm (Unit {0})
  unfolding select
  translate_csel arm_instr = do
    (dest, c) ← operand_reg arm_instr 0
    (src1, _) ← operand_reg arm_instr 1
    (src2, _) ← operand_reg arm_instr 2
    cond ← operand_cond arm_instr 3
    select cond c dest src1 src2
