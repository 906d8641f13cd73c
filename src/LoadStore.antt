-- ===== src/LoadStore.antt =====
-- src/runner/compiler/load_store.rs: loads, stores and their pairs, with the addressing modes.
pub mod Addressing
pub mod Appends
use xob.Base.{ℕ, Bool, true, false, ◌||◌, [], ◌∷◌}
use xob.Outcome.{Outcome, ok, panic}
use xob.Vendor.{Vendor}
use xob.Vendor.Bad64
use xob.Vendor.Bad64.{Op}
use xob.Vendor.Iced.{Code, OpKind}
use xob.Register.{
  RegClass, NativeRegClass, RegTranslation, is_indirect, with_native_class, byte_size,
}
use xob.Register.Access.{set_reg_operand, pre_read, post_write}
use xob.Arith.Operands.{operand, operand_reg}
use xob.Assembler.{Asm, pure, lift, add_instruction, construct, blank, no_op, ◌>>=◌, ◌>>◌}
use Addressing.{AddrModeInfo, process_addr_mode, finalize_addr_mode, memory_operand}

-- `RegClass` is `class` here.
pub data LsWidth : Type 0 where
  class signed_word : LsWidth
  half byte : Bool → LsWidth

unfoldable pub store_code : LsWidth → RegClass → Outcome Code
store_code LsWidth.class RegClass.gpr64 = ok Code.mov_rm64_r64
store_code LsWidth.class RegClass.gpr32 = ok Code.mov_rm32_r32
store_code LsWidth.class RegClass.fp128 = ok Code.movups_xmmm128_xmm
store_code LsWidth.class RegClass.fp64 = ok Code.movsd_xmmm64_xmm
store_code LsWidth.class RegClass.fp32 = ok Code.movss_xmmm32_xmm
store_code LsWidth.class _ = panic
store_code LsWidth.signed_word _ = panic
store_code (LsWidth.half _) _ = ok Code.mov_rm16_r16
store_code (LsWidth.byte _) _ = ok Code.mov_rm8_r8

unfoldable pub load_code : LsWidth → RegClass → Outcome Code
load_code LsWidth.class RegClass.gpr64 = ok Code.mov_r64_rm64
load_code LsWidth.class RegClass.gpr32 = ok Code.mov_r32_rm32
load_code LsWidth.class RegClass.fp128 = ok Code.movups_xmm_xmmm128
load_code LsWidth.class RegClass.fp64 = ok Code.movsd_xmm_xmmm64
load_code LsWidth.class RegClass.fp32 = ok Code.movss_xmm_xmmm32
load_code LsWidth.class _ = panic
load_code LsWidth.signed_word _ = ok Code.movsxd_r64_rm32
load_code (LsWidth.half false) _ = ok Code.movzx_r32_rm16
load_code (LsWidth.half true) _ = ok Code.movsx_r32_rm16
load_code (LsWidth.byte false) _ = ok Code.movzx_r32_rm8
load_code (LsWidth.byte true) _ = ok Code.movsx_r32_rm8

module _ ⦃v : Vendor⦄ where
  unfoldable pub stored_register : LsWidth → RegTranslation → Outcome RegTranslation
  stored_register (LsWidth.half _) src = with_native_class src NativeRegClass.gpr16
  stored_register (LsWidth.byte _) src = with_native_class src NativeRegClass.gpr8
  stored_register _ src = ok src

  abbrev pub GenFn : Type 0
  GenFn = RegTranslation → RegClass → AddrModeInfo → ℕ → LsWidth → Asm (Unit {0})

  unfoldable pub make_store : GenFn
  unfolding store_code stored_register
  make_store src c info extra_offset ls_width = do
    pre_read src c
    code ← lift (store_code ls_width c)
    src' ← lift (stored_register ls_width src)
    instr ← construct (memory_operand info extra_offset (blank code OpKind.memory no_op no_op))
    add_instruction (set_reg_operand src' instr 1)

  unfoldable pub make_load : GenFn
  unfolding load_code
  make_load dest c info extra_offset ls_width = do
    code ← lift (load_code ls_width c)
    instr ← construct (memory_operand info extra_offset (blank code no_op OpKind.memory no_op))
    add_instruction (set_reg_operand dest instr 0)
    post_write dest c

  unfoldable pub load_store_pair : Bad64.Instruction → GenFn → Asm (Unit {0})
  load_store_pair arm_instr gen_fn = do
    (reg1, c) ← operand_reg arm_instr 0
    (reg2, _) ← operand_reg arm_instr 1
    op2 ← operand arm_instr 2
    info ← process_addr_mode op2 (is_indirect reg1 || is_indirect reg2) (reg1 ∷ reg2 ∷ [])
    gen_fn reg1 c info 0 LsWidth.class
    size ← lift (byte_size c)
    gen_fn reg2 c info size LsWidth.class
    finalize_addr_mode info

  unfoldable pub load_store : Bad64.Instruction → GenFn → LsWidth → Asm (Unit {0})
  load_store arm_instr gen_fn ls_width = do
    (reg, c) ← operand_reg arm_instr 0
    op1 ← operand arm_instr 1
    info ← process_addr_mode op1 (is_indirect reg) (reg ∷ [])
    gen_fn reg c info 0 ls_width
    finalize_addr_mode info

  abbrev pub handled : Asm (Unit {0}) → Asm Bool
  handled m = m >> pure true

  unfoldable pub compile_op : Op → Bad64.Instruction → Asm Bool
  unfolding load_store load_store_pair
  compile_op Op.stp i = handled (load_store_pair i make_store)
  compile_op Op.ldp i = handled (load_store_pair i make_load)
  compile_op Op.str i = handled (load_store i make_store LsWidth.class)
  compile_op Op.stur i = handled (load_store i make_store LsWidth.class)
  compile_op Op.ldr i = handled (load_store i make_load LsWidth.class)
  compile_op Op.ldur i = handled (load_store i make_load LsWidth.class)
  compile_op Op.ldrb i = handled (load_store i make_load (LsWidth.byte false))
  compile_op Op.ldurb i = handled (load_store i make_load (LsWidth.byte false))
  compile_op Op.ldrsb i = handled (load_store i make_load (LsWidth.byte true))
  compile_op Op.ldursb i = handled (load_store i make_load (LsWidth.byte true))
  compile_op Op.ldrh i = handled (load_store i make_load (LsWidth.half false))
  compile_op Op.ldurh i = handled (load_store i make_load (LsWidth.half false))
  compile_op Op.ldrsh i = handled (load_store i make_load (LsWidth.half true))
  compile_op Op.ldursh i = handled (load_store i make_load (LsWidth.half true))
  compile_op Op.ldrsw i = handled (load_store i make_load LsWidth.signed_word)
  compile_op Op.ldursw i = handled (load_store i make_load LsWidth.signed_word)
  compile_op Op.strb i = handled (load_store i make_store (LsWidth.byte false))
  compile_op Op.sturb i = handled (load_store i make_store (LsWidth.byte false))
  compile_op Op.strh i = handled (load_store i make_store (LsWidth.half false))
  compile_op Op.sturh i = handled (load_store i make_store (LsWidth.half false))
  compile_op _ i = pure false

  unfoldable pub compile_instr : Bad64.Instruction → Asm Bool
  unfolding compile_op
  compile_instr arm_instr = compile_op arm_instr.op arm_instr
