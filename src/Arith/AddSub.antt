-- ===== src/Arith/AddSub.antt =====
-- src/runner/compiler/arith.rs: ADD, SUB, ADDS and SUBS.
use xob.Base.{ℕ, Bool, true, false, ◌&&◌, ◌||◌, Option, none, some, if◌then◌else◌}
use xob.Outcome.{Outcome, ok, panic, CompileError}
use xob.Vendor.{Vendor}
use xob.Vendor.Bad64
use xob.Vendor.Bad64.{Op, Imm, Shift, Reg}
use xob.Vendor.Iced
use xob.Vendor.Iced.{Register, Code}
use xob.Words.{low32}
use xob.Register.{
  RegClass, RegTranslation, translate_reg, is_indirect, reg_operand, unwrap_unsigned,
}
use xob.Register.Access.{set_reg_operand, set_memory_base, set_memory_index, pre_read, post_write}
use xob.InstrUtils.Codes.{add_rr_codes, sub_rr_codes, add_ri_codes, sub_ri_codes}
use xob.InstrUtils.{make_rr}
use xob.Arith.Operands.{operand, operand_reg}
use xob.Arith.Rrr.{make_rrr, make_rri}
use xob.Arith.Shifts.{load_shifted}
use xob.Assembler.{Asm, lift, fault, add_instruction, construct, blank, no_op, ◌>>=◌, ◌>>◌}

abbrev pub is_sub : Op → Bool
is_sub Op.sub = true
is_sub Op.subs = true
is_sub _ = false

-- The LEA code of the class, with the size of its displacement.
unfoldable pub lea_for : RegClass → Outcome (Code × ℕ)
lea_for RegClass.gpr64 = ok (Code.lea_r64_m, 8)
lea_for RegClass.gpr32 = ok (Code.lea_r32_m, 4)
lea_for _ = panic

module _ ⦃v : Vendor⦄ where
  -- `op dest, src1, src2 {, shift}`: the shifted operand is loaded into the destination first.
  unfoldable pub add_sub_shifted :
      Bool → RegTranslation → RegClass → RegTranslation → Reg → Shift → Asm (Unit {0})
  add_sub_shifted sub dest c src1 reg shift = do
    (src2, src2_class) ← lift (translate_reg reg none)
    let dest_reg = reg_operand dest
    load_shifted dest_reg c src2 src2_class shift
    make_rr (if sub then sub_rr_codes else add_rr_codes) c (RegTranslation.direct dest_reg) src1
    post_write dest c

  -- `lea dest, [src1 + src2]`
  unfoldable pub add_by_lea :
      Iced.Instruction
      → RegTranslation
      → RegClass
      → RegTranslation
      → RegTranslation
      → Asm (Unit {0})
  add_by_lea lea dest c src1 src2 = do
    pre_read src1 c
    pre_read src2 c
    add_instruction (set_memory_index src2 lea)
    post_write dest c

  unfoldable pub add_sub_reg :
      Iced.Instruction
      → Bool
      → Bool
      → RegTranslation
      → RegClass
      → RegTranslation
      → Reg
      → Asm (Unit {0})
  unfolding add_by_lea
  add_sub_reg lea sub set_flags dest c src1 reg = do
    (src2, _) ← lift (translate_reg reg none)
    if sub
        then make_rrr sub_rr_codes dest src1 src2 c
        else if (is_indirect src1 && is_indirect src2) || set_flags
        then make_rrr add_rr_codes dest src1 src2 c
        else add_by_lea lea dest c src1 src2

  -- `lea dest, [src1 + imm]`
  unfoldable pub add_imm_by_lea :
      Iced.Instruction → RegTranslation → RegClass → RegTranslation → ℕ → Asm (Unit {0})
  add_imm_by_lea lea dest c src1 imm = do
    pre_read src1 c
    add_instruction (record lea { displacement = imm })
    post_write dest c

  unfoldable pub add_sub_imm :
      Iced.Instruction
      → Bool
      → Bool
      → RegTranslation
      → RegClass
      → RegTranslation
      → Imm
      → Option Shift
      → Asm (Unit {0})
  unfolding add_imm_by_lea
  add_sub_imm lea sub set_flags dest c src1 imm (some _) = do
    _ ← lift (unwrap_unsigned imm)
    fault CompileError.unsupported_instruction
  add_sub_imm lea sub set_flags dest c src1 imm none = do
    n ← lift (unwrap_unsigned imm)
    if sub || set_flags
        then make_rri (if sub then sub_ri_codes else add_ri_codes) dest src1 (low32 n) c
        else add_imm_by_lea lea dest c src1 n

  unfoldable pub add_sub_operand :
      Iced.Instruction
      → Bool
      → Bool
      → RegTranslation
      → RegClass
      → RegTranslation
      → Bad64.Operand
      → Asm (Unit {0})
  unfolding add_sub_shifted add_sub_reg add_sub_imm
  add_sub_operand lea sub set_flags dest c src1 (Bad64.Operand.shift_reg reg shift) =
      add_sub_shifted sub dest c src1 reg shift
  add_sub_operand lea sub set_flags dest c src1 (Bad64.Operand.reg reg _) =
      add_sub_reg lea sub set_flags dest c src1 reg
  add_sub_operand lea sub set_flags dest c src1 (Bad64.Operand.imm64 imm shift) =
      add_sub_imm lea sub set_flags dest c src1 imm shift
  add_sub_operand lea sub set_flags dest c src1 (Bad64.Operand.imm32 imm shift) =
      add_sub_imm lea sub set_flags dest c src1 imm shift
  add_sub_operand lea sub set_flags dest c src1 _ = fault CompileError.unsupported_instruction

  unfoldable pub translate_add_sub : Bad64.Instruction → Bool → Asm (Unit {0})
  unfolding add_sub_operand lea_for
  translate_add_sub arm_instr set_flags = do
    (dest, c) ← operand_reg arm_instr 0
    (src1, _) ← operand_reg arm_instr 1
    (lea_code, size) ← lift (lea_for c)
    new ← construct (blank lea_code no_op Iced.OpKind.memory no_op)
    let sized = record new { displ_size = size }
    let lea = set_memory_base src1 (set_reg_operand dest sized 0)
    op2 ← operand arm_instr 2
    add_sub_operand lea (is_sub arm_instr.op) set_flags dest c src1 op2
