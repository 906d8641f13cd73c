-- ===== src/Vendor/Iced.antt =====
-- The part of the iced-x86 assembler that the compiler names: registers, instruction codes, the
-- `Instruction` record with its operand slots, and the calls made on a `CodeAssembler`.
use xob.Base.{ℕ, Bool, true, false, List, ◌==◌}

-- `iced_x86::Register`: the families that the compiler tests, each with its hardware index.
pub data Register : Type 0 where
  r64 r32 r16 r8 xmm : ℕ → Register
  none : Register
  other : ℕ → Register

abbrev pub rax : Register
rax = Register.r64 0

abbrev pub rcx : Register
rcx = Register.r64 1

abbrev pub rdx : Register
rdx = Register.r64 2

abbrev pub rbx : Register
rbx = Register.r64 3

abbrev pub rsp : Register
rsp = Register.r64 4

abbrev pub rbp : Register
rbp = Register.r64 5

abbrev pub rsi : Register
rsi = Register.r64 6

abbrev pub rdi : Register
rdi = Register.r64 7

abbrev pub r8_reg : Register
r8_reg = Register.r64 8

abbrev pub r9 : Register
r9 = Register.r64 9

abbrev pub r10 : Register
r10 = Register.r64 10

abbrev pub r11 : Register
r11 = Register.r64 11

abbrev pub r12 : Register
r12 = Register.r64 12

abbrev pub r13 : Register
r13 = Register.r64 13

abbrev pub r14 : Register
r14 = Register.r64 14

abbrev pub r15 : Register
r15 = Register.r64 15

abbrev pub eax : Register
eax = Register.r32 0

abbrev pub edx : Register
edx = Register.r32 2

abbrev pub ax : Register
ax = Register.r16 0

abbrev pub al : Register
al = Register.r8 0

abbrev pub xmm15 : Register
xmm15 = Register.xmm 15

-- `==` on registers.
abbrev pub register_eq : Register → Register → Bool
register_eq (Register.r64 a) (Register.r64 b) = a == b
register_eq (Register.r32 a) (Register.r32 b) = a == b
register_eq (Register.r16 a) (Register.r16 b) = a == b
register_eq (Register.r8 a) (Register.r8 b) = a == b
register_eq (Register.xmm a) (Register.xmm b) = a == b
register_eq Register.none Register.none = true
register_eq (Register.other a) (Register.other b) = a == b
register_eq _ _ = false

pub data Code : Type 0 where
  mov_r64_rm64 mov_r32_rm32 movzx_r64_rm8 movzx_r32_rm8 movzx_r64_rm16 : Code
  movzx_r32_rm16 movsx_r64_rm8 movsx_r32_rm8 movsx_r64_rm16 movsx_r32_rm16 : Code
  movsxd_r64_rm32 shr_rm64_imm8 shr_rm32_imm8 sar_rm64_imm8 sar_rm32_imm8 : Code
  shl_rm64_imm8 shl_rm32_imm8 lea_r64_m lea_r32_m vex_sarx_r32_rm32_r32 : Code
  vex_sarx_r64_rm64_r64 vex_shlx_r32_rm32_r32 vex_shlx_r64_rm64_r64 : Code
  vex_shrx_r32_rm32_r32 vex_shrx_r64_rm64_r64 div_rm32 idiv_rm32 div_rm64 : Code
  idiv_rm64 mul_rm32 add_r32_rm32 mul_rm64 add_r64_rm64 cmove_r32_rm32 : Code
  cmove_r64_rm64 cmovne_r32_rm32 cmovne_r64_rm64 cmovae_r32_rm32 cmovae_r64_rm64 : Code
  cmovb_r32_rm32 cmovb_r64_rm64 cmovs_r32_rm32 cmovs_r64_rm64 cmovns_r32_rm32 : Code
  cmovns_r64_rm64 cmovo_r32_rm32 cmovo_r64_rm64 cmovno_r32_rm32 cmovno_r64_rm64 : Code
  cmova_r32_rm32 cmova_r64_rm64 cmovbe_r32_rm32 cmovbe_r64_rm64 cmovge_r32_rm32 : Code
  cmovge_r64_rm64 cmovl_r32_rm32 cmovl_r64_rm64 cmovg_r32_rm32 cmovg_r64_rm64 : Code
  cmovle_r32_rm32 cmovle_r64_rm64 mov_rm32_r32 vex_bzhi_r64_rm64_r64 : Code
  vex_bzhi_r32_rm32_r32 and_rm64_r64 or_rm64_r64 xorps_xmm_xmmm128 : Code
  vex_andn_r64_r64_rm64 vex_andn_r32_r32_rm32 jmp_rel32_64 cmp_rm64_imm8 : Code
  cmp_rm32_imm8 bt_rm64_imm8 bt_rm32_imm8 mov_rm64_r64 push_r64 add_rm64_imm32 : Code
  pop_r64 movups_xmmm128_xmm movsd_xmmm64_xmm movss_xmmm32_xmm mov_rm16_r16 : Code
  mov_rm8_r8 movups_xmm_xmmm128 movsd_xmm_xmmm64 movss_xmm_xmmm32 mov_rm32_imm32 : Code
  mov_rm64_imm32 add_rm32_r32 add_rm64_r64 add_rm32_imm32 sub_r32_rm32 : Code
  sub_rm32_r32 sub_r64_rm64 sub_rm64_r64 sub_rm32_imm32 sub_rm64_imm32 : Code
  cmp_r32_rm32 cmp_rm32_r32 cmp_r64_rm64 cmp_rm64_r64 cmp_rm32_imm32 : Code
  cmp_rm64_imm32 and_r32_rm32 and_rm32_r32 and_r64_rm64 and_rm32_imm32 : Code
  and_rm64_imm32 or_r32_rm32 or_rm32_r32 or_r64_rm64 or_rm32_imm32 or_rm64_imm32 : Code
  xor_r32_rm32 xor_rm32_r32 xor_r64_rm64 xor_rm64_r64 mov_r64_imm64 : Code

-- The methods of `CodeAssembler` that append one instruction.
pub data Mnemonic : Type 0 where
  mov movzx movaps movsd_2 movss xor and or add sub cmp lea push pop pushfq popfq : Mnemonic
  cdq nop call jmp je jne jl jge jg jle jnc jc ja jbe jno jo js jns sete setne : Mnemonic
  setl setge setg setle setnc setc seta setbe setno seto sets setns : Mnemonic

-- An operand slot of an `Instruction`; the base, index and displacement of a memory operand are
-- fields of the instruction.
pub data OpKind : Type 0 where
  register : Register → OpKind
  memory : OpKind
  immediate : ℕ → OpKind
  branch : ℕ → OpKind

pub record Instruction : Type 0 where
  pub code : Code
  pub op0 : OpKind
  pub op1 : OpKind
  pub op2 : OpKind
  pub base : Register
  pub index : Register
  pub displacement : ℕ
  pub displ_size : ℕ

-- An argument of a `CodeAssembler` method: a register, `[base + displacement]`, a constant, a
-- label, or the address of a label.
pub data Arg : Type 0 where
  reg : Register → Arg
  ptr : Register → ℕ → Arg
  imm : ℕ → Arg
  label : ℕ → Arg
  ptr_label : ℕ → Arg

pub data Call : Type 0 where
  add_instruction : Instruction → Call
  asm : Mnemonic → List Arg → Call
  create_label : ℕ → Call
  set_label : ℕ → Call
  fwd : ℕ → Call
  anonymous_label : Call
  zero_bytes : Call
