-- ===== src/Branch.antt =====
-- src/runner/compiler/branch.rs: jumps, conditional branches, calls and returns.
pub mod Conditions
pub mod Flags
pub mod JumpCode
pub mod Appends
pub mod Returns
use xob.Base.{
  ℕ, ◌+◌, ◌-◌, ◌/◌, ◌%◌, Bool, true, false, ◌&&◌, [], ◌∷◌, Option, none, some, ltb, leb,
  if◌then◌else◌,
}
use xob.Outcome.{Outcome, ok, panic, index}
use xob.Vendor.{Vendor}
use xob.Vendor.Bad64
use xob.Vendor.Bad64.{Op, Condition}
use xob.Vendor.Iced.{Register, Code, OpKind, Mnemonic, Arg, rax, r10, r11, r15}
use xob.Words.{low32}
use xob.Register.{RegClass, RegTranslation, translate_reg, unwrap_reg}
use xob.Register.Context.{param_offset, shadow_sp_offset}
use xob.Register.Access.{set_operand, set_reg_operand, pre_read}
use xob.InstrUtils.{label_target, make_call}
use xob.Arith.Operands.{operand, operand_reg, operand_imm}
use xob.ExecPool.{ChunkMap, CompiledChunk, Callbacks, get_chunk, chunk_size}
use xob.Assembler.{
  Asm, pure, lift, asm, add_instruction, construct, fwd, anonymous_label, zero_bytes, unwrapped,
  blank, no_op, with_base_displ, ◌>>=◌, ◌>>◌,
}
use Conditions.{inverse_condition, make_jcc}

unfoldable pub cmp_zero_code : RegClass → Outcome Code
cmp_zero_code RegClass.gpr64 = ok Code.cmp_rm64_imm8
cmp_zero_code RegClass.gpr32 = ok Code.cmp_rm32_imm8
cmp_zero_code _ = panic

unfoldable pub bit_test_code : RegClass → Outcome Code
bit_test_code RegClass.gpr64 = ok Code.bt_rm64_imm8
bit_test_code RegClass.gpr32 = ok Code.bt_rm32_imm8
bit_test_code _ = panic

abbrev pub cbz_condition : Op → Condition
cbz_condition Op.cbz = Condition.eq
cbz_condition _ = Condition.ne

-- BT sets the carry flag to the bit.
abbrev pub tbz_condition : Op → Condition
tbz_condition Op.tbz = Condition.cc
tbz_condition _ = Condition.cs

-- The condition of a `B.cond`.
unfoldable pub b_cc_condition : Op → Option Condition
b_cc_condition Op.b_al = some Condition.al
b_cc_condition Op.b_cc = some Condition.cc
b_cc_condition Op.b_cs = some Condition.cs
b_cc_condition Op.b_eq = some Condition.eq
b_cc_condition Op.b_ge = some Condition.ge
b_cc_condition Op.b_gt = some Condition.gt
b_cc_condition Op.b_hi = some Condition.hi
b_cc_condition Op.b_le = some Condition.le
b_cc_condition Op.b_ls = some Condition.ls
b_cc_condition Op.b_lt = some Condition.lt
b_cc_condition Op.b_mi = some Condition.mi
b_cc_condition Op.b_ne = some Condition.ne
b_cc_condition Op.b_nv = some Condition.nv
b_cc_condition Op.b_pl = some Condition.pl
b_cc_condition Op.b_vc = some Condition.vc
b_cc_condition Op.b_vs = some Condition.vs
b_cc_condition _ = none

module _ ⦃v : Vendor⦄ ⦃cb : Callbacks⦄ where
  -- A jump to a chunk that is compiled already, or a call that will rewrite itself.
  unfoldable pub far_jump : Option CompiledChunk → ℕ → Asm (Unit {0})
  far_jump (some chunk) offset = do
    byte_idx ← lift (index chunk.instr_map (offset / 4))
    asm Mnemonic.mov (Arg.reg rax ∷ Arg.imm (chunk.addr + byte_idx) ∷ [])
    asm Mnemonic.jmp (Arg.reg rax ∷ [])
  far_jump none offset = make_call cb.rewrite_branch_landing_pad

  -- A jump inside the chunk goes to the label of the instruction, its index plus one.
  unfoldable pub near_jump : ℕ → Asm (Unit {0})
  near_jump arm_instr_idx = do
    jmp ← construct (blank Code.jmp_rel32_64 (OpKind.branch (arm_instr_idx + 1)) no_op no_op)
    add_instruction jmp

  unfoldable pub jump_to : ChunkMap → ℕ → ℕ → Asm (Unit {0})
  unfolding far_jump near_jump
  jump_to chunks chunk_addr target =
      if leb chunk_addr target && ltb target (chunk_addr + chunk_size)
      then near_jump ((target - chunk_addr) / 4)
      else (let offset = target % chunk_size in
          far_jump (get_chunk chunks (target - offset)) offset)

  unfoldable pub make_jump : ChunkMap → ℕ → Bad64.Operand → Asm (Unit {0})
  unfolding jump_to
  make_jump chunks chunk_addr label_operand = do
    target ← lift (label_target label_operand)
    jump_to chunks chunk_addr target

  unfoldable pub make_branch_to_label : ChunkMap → ℕ → Bad64.Operand → Condition → Asm (Unit {0})
  make_branch_to_label chunks chunk_addr label_operand cond = do
    label ← fwd
    make_jcc (inverse_condition cond) label
    make_jump chunks chunk_addr label_operand
    anonymous_label
    unwrapped zero_bytes

  unfoldable pub handle_cbz_cbnz : ChunkMap → ℕ → Bad64.Instruction → Asm (Unit {0})
  unfolding cmp_zero_code
  handle_cbz_cbnz chunks chunk_addr arm_instr = do
    (reg, c) ← operand_reg arm_instr 0
    code ← lift (cmp_zero_code c)
    cmp ← construct (blank code no_op (OpKind.immediate 0) no_op)
    cmp' ← lift (set_operand reg cmp 0)
    add_instruction cmp'
    op1 ← operand arm_instr 1
    make_branch_to_label chunks chunk_addr op1 (cbz_condition arm_instr.op)

  unfoldable pub handle_tbz_tbnz : ChunkMap → ℕ → Bad64.Instruction → Asm (Unit {0})
  unfolding bit_test_code
  handle_tbz_tbnz chunks chunk_addr arm_instr = do
    (reg, c) ← operand_reg arm_instr 0
    code ← lift (bit_test_code c)
    imm ← operand_imm arm_instr 1
    bt ← construct (blank code no_op (OpKind.immediate (low32 imm)) no_op)
    bt' ← lift (set_operand reg bt 0)
    add_instruction bt'
    op2 ← operand arm_instr 2
    make_branch_to_label chunks chunk_addr op2 (tbz_condition arm_instr.op)

  unfoldable pub push_shadow_stack : ℕ → Register → Asm (Unit {0})
  push_shadow_stack label reg = do
    asm Mnemonic.push (Arg.reg r10 ∷ [])
    asm Mnemonic.mov (Arg.reg r10 ∷ Arg.ptr r15 shadow_sp_offset ∷ [])
    asm Mnemonic.sub (Arg.reg r10 ∷ Arg.imm 16 ∷ [])
    mov ←
        construct (
          with_base_displ r10 8 (blank Code.mov_rm64_r64 OpKind.memory (OpKind.register reg) no_op))
    add_instruction mov
    asm Mnemonic.lea (Arg.reg rax ∷ Arg.ptr_label label ∷ [])
    asm Mnemonic.mov (Arg.ptr r10 0 ∷ Arg.reg rax ∷ [])
    asm Mnemonic.mov (Arg.ptr r15 shadow_sp_offset ∷ Arg.reg r10 ∷ [])
    asm Mnemonic.pop (Arg.reg r10 ∷ [])

  unfoldable pub make_indirect_jump : Bad64.Operand → Asm (Unit {0})
  make_indirect_jump op = do
    (r, a) ← lift (unwrap_reg op)
    (src, _) ← lift (translate_reg r a)
    pre_read src RegClass.gpr64
    mov ←
        construct
          (with_base_displ r15 param_offset (blank Code.mov_rm64_r64 OpKind.memory no_op no_op))
    add_instruction (set_reg_operand src mov 1)
    make_call cb.indirect_jump_landing_pad

  -- Load the link register and push the return address pair, before a call's jump.
  unfoldable pub link : Bad64.Instruction → Asm (Unit {0})
  unfolding push_shadow_stack
  link arm_instr = do
    asm Mnemonic.mov (Arg.reg r11 ∷ Arg.imm (arm_instr.address + 4) ∷ [])
    ret_label ← fwd
    push_shadow_stack ret_label r11

  unfoldable pub make_return : Asm (Unit {0})
  make_return = do
    asm Mnemonic.push (Arg.reg r10 ∷ [])
    asm Mnemonic.mov (Arg.reg r10 ∷ Arg.ptr r15 shadow_sp_offset ∷ [])
    asm Mnemonic.mov (Arg.reg rax ∷ Arg.ptr r10 8 ∷ [])
    asm Mnemonic.cmp (Arg.reg r11 ∷ Arg.reg rax ∷ [])
    asm Mnemonic.mov (Arg.reg rax ∷ Arg.ptr r10 0 ∷ [])
    asm Mnemonic.lea (Arg.reg r10 ∷ Arg.ptr r10 16 ∷ [])
    asm Mnemonic.mov (Arg.ptr r15 shadow_sp_offset ∷ Arg.reg r10 ∷ [])
    asm Mnemonic.pop (Arg.reg r10 ∷ [])
    callback_label ← fwd
    asm Mnemonic.jne (Arg.label callback_label ∷ [])
    asm Mnemonic.jmp (Arg.reg rax ∷ [])
    anonymous_label
    asm Mnemonic.mov (Arg.ptr r15 param_offset ∷ Arg.reg r11 ∷ [])
    make_call cb.indirect_jump_landing_pad

  unfoldable pub handle_b_cc : ChunkMap → ℕ → Option Condition → Bad64.Instruction → Asm Bool
  unfolding make_branch_to_label
  handle_b_cc chunks chunk_addr none arm_instr = pure false
  handle_b_cc chunks chunk_addr (some cond) arm_instr = do
    op0 ← operand arm_instr 0
    make_branch_to_label chunks chunk_addr op0 cond
    pure true

  unfoldable pub make_call_to : ChunkMap → ℕ → Bad64.Instruction → Asm (Unit {0})
  unfolding link make_jump
  make_call_to chunks chunk_addr i = do
    link i
    op0 ← operand i 0
    make_jump chunks chunk_addr op0
    anonymous_label
    zero_bytes

  unfoldable pub make_call_reg : Bad64.Instruction → Asm (Unit {0})
  unfolding link make_indirect_jump
  make_call_reg i = do
    link i
    op0 ← operand i 0
    make_indirect_jump op0
    anonymous_label
    zero_bytes

  abbrev pub handled : Asm (Unit {0}) → Asm Bool
  handled m = m >> pure true

  unfoldable pub compile_op : ChunkMap → ℕ → Op → Bad64.Instruction → Asm Bool
  compile_op chunks chunk_addr Op.b i = handled (operand i 0 >>= make_jump chunks chunk_addr)
  compile_op chunks chunk_addr Op.bl i = handled (make_call_to chunks chunk_addr i)
  compile_op chunks chunk_addr Op.br i = handled (operand i 0 >>= make_indirect_jump)
  compile_op chunks chunk_addr Op.blr i = handled (make_call_reg i)
  compile_op chunks chunk_addr Op.cbz i = handled (handle_cbz_cbnz chunks chunk_addr i)
  compile_op chunks chunk_addr Op.cbnz i = handled (handle_cbz_cbnz chunks chunk_addr i)
  compile_op chunks chunk_addr Op.tbz i = handled (handle_tbz_tbnz chunks chunk_addr i)
  compile_op chunks chunk_addr Op.tbnz i = handled (handle_tbz_tbnz chunks chunk_addr i)
  compile_op chunks chunk_addr Op.ret i = handled make_return
  compile_op chunks chunk_addr Op.bti i = pure true
  compile_op chunks chunk_addr _ i = pure false

  unfoldable pub compile_instr : ChunkMap → ℕ → Bad64.Instruction → Asm Bool
  unfolding compile_op handle_b_cc b_cc_condition
  compile_instr chunks chunk_addr arm_instr = do
    done ← handle_b_cc chunks chunk_addr (b_cc_condition arm_instr.op) arm_instr
    if done then pure true else compile_op chunks chunk_addr arm_instr.op arm_instr
