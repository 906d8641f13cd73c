-- ===== src/Arith/Shifts.antt =====
-- src/runner/compiler/arith.rs: extended and shifted operands, and the shift instructions.
use xob.Base.{ℕ, Bool, true, false, none, ◌&&◌, ◌==◌, if◌then◌else◌}
use xob.Outcome.{Outcome, ok, panic, err, CompileError}
use xob.Vendor.{Vendor}
use xob.Vendor.Bad64
use xob.Vendor.Bad64.{Shift, Op, Imm}
use xob.Vendor.Iced.{Register, Code, OpKind}
use xob.Words.{low32}
use xob.Register.{
  RegClass, NativeRegClass, RegTranslation, to_native_class, lower_reg_to_class, with_native_class,
  translate_reg, is_gpr64,
}
use xob.Register.Access.{set_operand, set_reg_operand, pre_read, post_write}
use xob.InstrUtils.{get_shamt_from_shift}
use xob.Arith.Operands.{operand, operand_reg}
use xob.Assembler.{Asm, pure, lift, crash, add_instruction, construct, blank, no_op, ◌>>=◌, ◌>>◌}

-- The codes that move the operand into a 64-bit and a 32-bit destination.
unfoldable pub mov_codes : Shift → RegClass → Outcome (Code × Code)
mov_codes (Shift.msl _) src_class = err CompileError.unsupported_instruction
mov_codes (Shift.ror _) src_class = err CompileError.unsupported_instruction
mov_codes (Shift.uxtb _) src_class = ok (Code.movzx_r64_rm8, Code.movzx_r32_rm8)
mov_codes (Shift.uxth _) src_class = ok (Code.movzx_r64_rm16, Code.movzx_r32_rm16)
mov_codes (Shift.uxtw _) src_class = ok (Code.mov_r32_rm32, Code.mov_r32_rm32)
mov_codes (Shift.uxtx _) src_class = ok (Code.mov_r64_rm64, Code.mov_r32_rm32)
mov_codes (Shift.sxtb _) src_class = ok (Code.movsx_r64_rm8, Code.movsx_r32_rm8)
mov_codes (Shift.sxth _) src_class = ok (Code.movsx_r64_rm16, Code.movsx_r32_rm16)
mov_codes (Shift.sxtw _) src_class = ok (Code.movsxd_r64_rm32, Code.mov_r32_rm32)
mov_codes (Shift.sxtx _) src_class =
    ok (if is_gpr64 src_class then Code.mov_r64_rm64 else Code.movsxd_r64_rm32, Code.mov_r32_rm32)
mov_codes (Shift.lsl _) src_class = ok (Code.mov_r64_rm64, Code.mov_r32_rm32)
mov_codes (Shift.lsr _) src_class = ok (Code.mov_r64_rm64, Code.mov_r32_rm32)
mov_codes (Shift.asr _) src_class = ok (Code.mov_r64_rm64, Code.mov_r32_rm32)

-- The width at which the source register is read.
unfoldable pub native_src_class : Shift → RegClass → Outcome NativeRegClass
native_src_class (Shift.uxtb _) c = ok NativeRegClass.gpr8
native_src_class (Shift.sxtb _) c = ok NativeRegClass.gpr8
native_src_class (Shift.uxth _) c = ok NativeRegClass.gpr16
native_src_class (Shift.sxth _) c = ok NativeRegClass.gpr16
native_src_class (Shift.uxtw _) c = ok NativeRegClass.gpr32
native_src_class (Shift.sxtw _) c = ok NativeRegClass.gpr32
native_src_class (Shift.uxtx _) c = ok (to_native_class c)
native_src_class (Shift.sxtx _) c = ok (to_native_class c)
native_src_class (Shift.lsl _) c = ok (to_native_class c)
native_src_class (Shift.lsr _) c = ok (to_native_class c)
native_src_class (Shift.asr _) c = ok (to_native_class c)
native_src_class _ c = panic

-- `match dest_class { GPR64 => a, GPR32 => b, _ => unreachable!() }`
abbrev pub by_class : RegClass → Code → Code → Outcome Code
by_class RegClass.gpr64 a b = ok a
by_class RegClass.gpr32 a b = ok b
by_class _ a b = panic

abbrev pub is_uxtw : Shift → Bool
is_uxtw (Shift.uxtw _) = true
is_uxtw _ = false

unfoldable pub shift_codes : Shift → Code × Code
shift_codes (Shift.lsr _) = (Code.shr_rm64_imm8, Code.shr_rm32_imm8)
shift_codes (Shift.asr _) = (Code.sar_rm64_imm8, Code.sar_rm32_imm8)
shift_codes _ = (Code.shl_rm64_imm8, Code.shl_rm32_imm8)

-- The codes of ASR, LSL and LSR: by register for the two classes, by immediate for the two.
unfoldable pub shift_op_codes : Op → Outcome ((Code × Code) × (Code × Code))
shift_op_codes Op.asr = ok (
  (Code.vex_sarx_r32_rm32_r32, Code.vex_sarx_r64_rm64_r64),
  (Code.sar_rm32_imm8, Code.sar_rm64_imm8),
)
shift_op_codes Op.lsl = ok (
  (Code.vex_shlx_r32_rm32_r32, Code.vex_shlx_r64_rm64_r64),
  (Code.shl_rm32_imm8, Code.shl_rm64_imm8),
)
shift_op_codes Op.lsr = ok (
  (Code.vex_shrx_r32_rm32_r32, Code.vex_shrx_r64_rm64_r64),
  (Code.shr_rm32_imm8, Code.shr_rm64_imm8),
)
shift_op_codes _ = panic

module _ ⦃v : Vendor⦄ where
  unfoldable pub shift_by : Register → RegClass → Shift → ℕ → Asm (Unit {0})
  unfolding shift_codes
  shift_by dest dest_class shift shamt = do
    code ← lift (by_class dest_class (shift_codes shift).0 (shift_codes shift).1)
    instr ← construct (blank code (OpKind.register dest) (OpKind.immediate shamt) no_op)
    add_instruction instr

  unfoldable pub load_shifted :
      Register → RegClass → RegTranslation → RegClass → Shift → Asm (Unit {0})
  unfolding shift_by
  load_shifted dest dest_class src src_class shift = do
    (mov_64, mov_32) ← lift (mov_codes shift src_class)
    native ← lift (native_src_class shift src_class)
    mov_code ← lift (by_class dest_class mov_64 mov_32)
    mov_dest ←
        (if is_uxtw shift && is_gpr64 dest_class
          then lift (lower_reg_to_class dest RegClass.gpr32)
          else pure dest)
    mov ← construct (blank mov_code (OpKind.register mov_dest) no_op no_op)
    lowered ← lift (with_native_class src native)
    mov' ← lift (set_operand lowered mov 1)
    add_instruction mov'
    let shamt = get_shamt_from_shift shift
    if shamt == 0 then pure tt else shift_by dest dest_class shift shamt

  unfoldable pub shift_operand :
      Code → Code → RegTranslation → RegClass → RegTranslation → Bad64.Operand → Asm (Unit {0})
  shift_operand r_rm_r rm_i dest c src1 (Bad64.Operand.reg reg _) = do
    (src2, _) ← lift (translate_reg reg none)
    pre_read src2 c
    instr ← construct (blank r_rm_r no_op no_op no_op)
    instr' ← lift (set_operand src1 (set_reg_operand dest instr 0) 1)
    add_instruction (set_reg_operand src2 instr' 2)
    post_write dest c
  shift_operand r_rm_r rm_i dest c src1 (Bad64.Operand.imm64 (Imm.unsigned imm) _) = do
    instr ← construct (blank rm_i no_op (OpKind.immediate (low32 imm)) no_op)
    instr' ← lift (set_operand dest instr 0)
    add_instruction instr'
  shift_operand r_rm_r rm_i dest c src1 _ = crash

  unfoldable pub translate_shift : Bad64.Instruction → Asm (Unit {0})
  unfolding shift_operand
  translate_shift arm_instr = do
    (dest, c) ← operand_reg arm_instr 0
    (src1, _) ← operand_reg arm_instr 1
    ((r32, r64), (i32, i64)) ← lift (shift_op_codes arm_instr.op)
    r_rm_r ← lift (by_class c r64 r32)
    rm_i ← lift (by_class c i64 i32)
    op2 ← operand arm_instr 2
    shift_operand r_rm_r rm_i dest c src1 op2
