-- ===== src/Register.antt =====
-- src/runner/compiler/register.rs: register classes and the allocation of AArch64 registers to
-- x86-64 registers and to slots of the execution context.
pub mod Context
pub mod Access
pub mod Appends
pub mod Classes
pub mod Allocation
pub mod Widths
use xob.Base.{
  ℕ, ◌+◌, ◌-◌, ◌*◌, Bool, true, false, ◌&&◌, Option, none, some, List, ltb, leb, ◌==◌,
  if◌then◌else◌,
}
use xob.Outcome.{Outcome, ok, err, panic, unwrap, CompileError, ◌>>=◌}
use xob.Vendor.{Vendor}
use xob.Vendor.Bad64.{Reg, ArrSpec, Imm, Shift, Operand, Condition}
use xob.Vendor.Iced.{Register, eax, ax, al, rax, xmm15, register_eq}
use Context.{indirect_fp_regs_offset}

pub data NativeRegClass : Type 0 where
  gpr64 gpr32 gpr16 gpr8 xmm : NativeRegClass

pub data RegClass : Type 0 where
  gpr64 gpr32 fp128 fp64 fp32 fp16 fp8 : RegClass
  simd : ArrSpec → RegClass

pub data RegTranslation : Type 0 where
  direct : Register → RegTranslation
  indirect : ℕ → NativeRegClass → RegTranslation
  zero : NativeRegClass → RegTranslation

abbrev pub native_eq : NativeRegClass → NativeRegClass → Bool
native_eq NativeRegClass.gpr64 NativeRegClass.gpr64 = true
native_eq NativeRegClass.gpr32 NativeRegClass.gpr32 = true
native_eq NativeRegClass.gpr16 NativeRegClass.gpr16 = true
native_eq NativeRegClass.gpr8 NativeRegClass.gpr8 = true
native_eq NativeRegClass.xmm NativeRegClass.xmm = true
native_eq _ _ = false

-- The derived `==`.
abbrev pub translation_eq : RegTranslation → RegTranslation → Bool
translation_eq (RegTranslation.direct a) (RegTranslation.direct b) = register_eq a b
translation_eq (RegTranslation.indirect i c) (RegTranslation.indirect j d) = i == j && native_eq c d
translation_eq (RegTranslation.zero c) (RegTranslation.zero d) = native_eq c d
translation_eq _ _ = false

abbrev pub is_gpr64 : RegClass → Bool
is_gpr64 RegClass.gpr64 = true
is_gpr64 _ = false

unfoldable pub is_indirect : RegTranslation → Bool
is_indirect (RegTranslation.direct _) = false
is_indirect (RegTranslation.indirect _ _) = true
is_indirect (RegTranslation.zero _) = true

-- `NativeRegClass::scratch`
unfoldable pub native_scratch : NativeRegClass → Register
native_scratch NativeRegClass.gpr64 = rax
native_scratch NativeRegClass.gpr32 = eax
native_scratch NativeRegClass.gpr16 = ax
native_scratch NativeRegClass.gpr8 = al
native_scratch NativeRegClass.xmm = xmm15

unfoldable pub reg_operand : RegTranslation → Register
unfolding native_scratch
reg_operand (RegTranslation.direct r) = r
reg_operand (RegTranslation.zero c) = native_scratch c
reg_operand (RegTranslation.indirect _ c) = native_scratch c

unfoldable pub byte_size : RegClass → Outcome ℕ
byte_size RegClass.gpr64 = ok 8
byte_size RegClass.gpr32 = ok 4
byte_size RegClass.fp128 = ok 16
byte_size RegClass.fp64 = ok 8
byte_size RegClass.fp32 = ok 4
byte_size _ = panic

-- `RegClass::scratch`
unfoldable pub scratch : RegClass → Register
scratch RegClass.gpr64 = rax
scratch RegClass.gpr32 = eax
scratch _ = xmm15

unfoldable pub scratch_translation : RegClass → RegTranslation
unfolding scratch
scratch_translation c = RegTranslation.direct (scratch c)

unfoldable pub to_native_class : RegClass → NativeRegClass
to_native_class RegClass.gpr64 = NativeRegClass.gpr64
to_native_class RegClass.gpr32 = NativeRegClass.gpr32
to_native_class _ = NativeRegClass.xmm

abbrev pub within : ℕ → ℕ → ℕ → Bool
within lo hi n = leb lo n && leb n hi

-- `unwrap_reg` and the like.
unfoldable pub unwrap_reg : Operand → Outcome (Reg × Option ArrSpec)
unwrap_reg (Operand.reg r a) = ok (r, a)
unwrap_reg _ = panic

unfoldable pub unwrap_imm : Operand → Outcome (Imm × Option Shift)
unwrap_imm (Operand.imm64 i s) = ok (i, s)
unwrap_imm (Operand.imm32 i s) = ok (i, s)
unwrap_imm _ = panic

unfoldable pub unwrap_unsigned : Imm → Outcome ℕ
unwrap_unsigned (Imm.unsigned n) = ok n
unwrap_unsigned (Imm.signed _) = panic

unfoldable pub unwrap_cond : Operand → Outcome Condition
unwrap_cond (Operand.cond c) = ok c
unwrap_cond _ = panic

module _ ⦃v : Vendor⦄ where
  -- `Reg::from_u32(rn - from as u32 + to as u32).unwrap()`, with the class in front.
  unfoldable pub rebase : RegClass → ℕ → Reg → Reg → Outcome (RegClass × Reg)
  rebase c rn from to = do
    r ← unwrap (v.reg_from (rn - v.reg_number from + v.reg_number to))
    ok (c, r)

  unfoldable pub simd_class : Option ArrSpec → Reg → Outcome (RegClass × Reg)
  simd_class arrspec reg = do a ← unwrap arrspec; ok (RegClass.simd a, reg)

  -- `rn >= lo as u32 && rn <= hi as u32`
  abbrev pub in_family : Reg → Reg → ℕ → Bool
  in_family lo hi rn = within (v.reg_number lo) (v.reg_number hi) rn

  unfoldable pub get_reg_class : Reg → Option ArrSpec → Outcome (RegClass × Reg)
  unfolding rebase simd_class
  get_reg_class reg arrspec =
      let rn = v.reg_number reg in
      if rn == v.reg_number Reg.sp
      then ok (RegClass.gpr64, reg)
      else if in_family (Reg.x_reg 0) Reg.xzr rn
      then ok (RegClass.gpr64, reg)
      else if rn == v.reg_number Reg.wsp
      then ok (RegClass.gpr32, Reg.sp)
      else if in_family (Reg.w_reg 0) Reg.wzr rn
      then rebase RegClass.gpr32 rn (Reg.w_reg 0) (Reg.x_reg 0)
      else if in_family (Reg.q_reg 0) (Reg.q_reg 31) rn
      then ok (RegClass.fp128, reg)
      else if in_family (Reg.d_reg 0) (Reg.d_reg 31) rn
      then rebase RegClass.fp64 rn (Reg.d_reg 0) (Reg.q_reg 0)
      else if in_family (Reg.s_reg 0) (Reg.s_reg 31) rn
      then rebase RegClass.fp32 rn (Reg.s_reg 0) (Reg.q_reg 0)
      else if in_family (Reg.h_reg 0) (Reg.h_reg 31) rn
      then rebase RegClass.fp16 rn (Reg.h_reg 0) (Reg.q_reg 0)
      else if in_family (Reg.b_reg 0) (Reg.b_reg 31) rn
      then rebase RegClass.fp8 rn (Reg.b_reg 0) (Reg.q_reg 0)
      else if in_family (Reg.v_reg 0) (Reg.v_reg 31) rn
      then simd_class arrspec reg
      else err CompileError.unsupported_instruction

  abbrev pub is_r64 : ℕ → Bool
  is_r64 rn = within (v.register_number (Register.r64 0)) (v.register_number (Register.r64 15)) rn

  -- `reg - from as u32 + to as u32` on `Register`, which panics where there is no such register.
  unfoldable pub shift_register : ℕ → Register → Register → ℕ → Outcome Register
  shift_register rn from to extra =
      unwrap (v.register_from (rn - v.register_number from + v.register_number to + extra))

  unfoldable pub lower_reg_to_native_class : Register → NativeRegClass → Outcome Register
  unfolding shift_register
  lower_reg_to_native_class reg NativeRegClass.gpr64 =
      if is_r64 (v.register_number reg) then ok reg else panic
  lower_reg_to_native_class reg NativeRegClass.gpr32 =
      if is_r64 (v.register_number reg) then ok (v.full_register32 reg) else panic
  lower_reg_to_native_class reg NativeRegClass.gpr16 =
      let rn = v.register_number reg in
      if is_r64 rn then shift_register rn (Register.r64 0) (Register.r16 0) 0 else panic
  lower_reg_to_native_class reg NativeRegClass.gpr8 =
      let rn = v.register_number reg in
      if is_r64 rn
      then (if leb rn (v.register_number (Register.r64 3))
          then shift_register rn (Register.r64 0) (Register.r8 0) 0
          else shift_register rn (Register.r64 0) (Register.r8 0) 4)
      else panic
  lower_reg_to_native_class reg NativeRegClass.xmm =
      let rn = v.register_number reg in
      if within (v.register_number (Register.xmm 0)) (v.register_number (Register.xmm 15)) rn
      then ok reg
      else panic

  unfoldable pub lower_reg_to_class : Register → RegClass → Outcome Register
  unfolding lower_reg_to_native_class
  lower_reg_to_class reg RegClass.gpr64 = lower_reg_to_native_class reg NativeRegClass.gpr64
  lower_reg_to_class reg RegClass.gpr32 = lower_reg_to_native_class reg NativeRegClass.gpr32
  lower_reg_to_class reg (RegClass.simd _) = panic
  lower_reg_to_class reg _ = ok reg

  unfoldable pub with_native_class : RegTranslation → NativeRegClass → Outcome RegTranslation
  with_native_class (RegTranslation.direct r) c = do
    lowered ← lower_reg_to_native_class (v.full_register r) c
    ok (RegTranslation.direct lowered)
  with_native_class (RegTranslation.zero _) c = ok (RegTranslation.zero c)
  with_native_class (RegTranslation.indirect i _) c = ok (RegTranslation.indirect i c)

  unfoldable pub translate_indirect_reg : Reg → RegClass → Outcome RegTranslation
  unfolding to_native_class
  translate_indirect_reg reg reg_class =
      let rn = v.reg_number reg in
      let native_class = to_native_class reg_class in
      let fp_offset = indirect_fp_regs_offset in
      let slot = λ (offset : ℕ). ok (RegTranslation.indirect offset native_class) in
      if in_family (Reg.x_reg 0) (Reg.x_reg 18) rn
      then slot ((rn - v.reg_number (Reg.x_reg 0)) * 8)
      else if in_family (Reg.x_reg 24) (Reg.x_reg 28) rn
      then slot ((rn - v.reg_number (Reg.x_reg 24) + 13) * 8)
      else if in_family (Reg.q_reg 8) (Reg.q_reg 15) rn
      then slot (fp_offset + (rn - v.reg_number (Reg.q_reg 8)) * 16)
      else if in_family (Reg.q_reg 23) (Reg.q_reg 31) rn
      then slot (fp_offset + (rn - v.reg_number (Reg.q_reg 23) + 8) * 16)
      else if in_family (Reg.v_reg 8) (Reg.v_reg 15) rn
      then slot (fp_offset + (rn - v.reg_number (Reg.v_reg 8)) * 16)
      else if in_family (Reg.v_reg 23) (Reg.v_reg 31) rn
      then slot (fp_offset + (rn - v.reg_number (Reg.v_reg 23) + 8) * 16)
      else if rn == v.reg_number Reg.xzr
      then ok (RegTranslation.zero native_class)
      else err CompileError.unsupported_instruction

-- The registers that are allocated to hardware registers, `none` for the rest.
abbrev pub direct_gpr : ℕ → Option Register
direct_gpr n =
    if n == 0
    then some (Register.r64 7)
    else if n == 1
    then some (Register.r64 6)
    else if n == 2
    then some (Register.r64 2)
    else if n == 19
    then some (Register.r64 3)
    else if n == 3
    then some (Register.r64 1)
    else if n == 20
    then some (Register.r64 12)
    else if n == 21
    then some (Register.r64 13)
    else if n == 4
    then some (Register.r64 8)
    else if n == 29
    then some (Register.r64 5)
    else if n == 22
    then some (Register.r64 14)
    else if n == 5
    then some (Register.r64 9)
    else if n == 23
    then some (Register.r64 10)
    else if n == 30
    then some (Register.r64 11)
    else none

abbrev pub direct_fp : ℕ → Option Register
direct_fp n =
    if leb n 7
    then some (Register.xmm n)
    else if within 16 22 n
    then some (Register.xmm (n - 8))
    else none

unfoldable pub direct_reg : Reg → Option Register
direct_reg (Reg.x_reg n) = direct_gpr n
direct_reg Reg.sp = some (Register.r64 4)
direct_reg (Reg.q_reg n) = direct_fp n
direct_reg (Reg.v_reg n) = direct_fp n
direct_reg _ = none

module _ ⦃v : Vendor⦄ where
  unfoldable pub translate_direct :
      Option Register → Reg → RegClass → Outcome (RegTranslation × RegClass)
  translate_direct none top c = do t ← translate_indirect_reg top c; ok (t, c)
  translate_direct (some r) top c = do
    lowered ← lower_reg_to_class r c
    ok (RegTranslation.direct lowered, c)

  unfoldable pub translate_reg : Reg → Option ArrSpec → Outcome (RegTranslation × RegClass)
  unfolding direct_reg translate_direct
  translate_reg reg arrspec = do
    (c, top) ← get_reg_class reg arrspec
    translate_direct (direct_reg top) top c
