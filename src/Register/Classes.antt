-- ===== src/Register/Classes.antt =====
-- What `get_reg_class` makes of each family of registers.
use xob.Base.{ℕ, ◌≤◌, ◌≡◌, arith, some, Option}
use xob.Outcome.{ok}
use xob.Vendor.{Vendor}
use xob.Vendor.Laws.{ArmLaws}
use xob.Vendor.Bad64.{Reg, ArrSpec}
use xob.Register.{RegClass, get_reg_class}

module _ ⦃v : Vendor⦄ (laws : ArmLaws v) where
  pub get_reg_class-x :
      (a : Option ArrSpec) (n : ℕ)
      → n ≤ 30
      → get_reg_class (Reg.x_reg n) a ≡ ok (RegClass.gpr64, Reg.x_reg n)
  unfolding get_reg_class
  get_reg_class-x a n h = ground (arith, laws.x_number n h, laws.sp_number, laws.xzr_number)

  pub get_reg_class-w :
      (a : Option ArrSpec) (n : ℕ)
      → n ≤ 30
      → get_reg_class (Reg.w_reg n) a ≡ ok (RegClass.gpr32, Reg.x_reg n)
  unfolding get_reg_class
  get_reg_class-w a n h = ground (
    arith,
    laws.w_number n h,
    laws.x_from n h,
    laws.sp_number,
    laws.xzr_number,
    laws.wsp_number,
    laws.wzr_number,
    laws.w_below_x,
  )

  pub get_reg_class-q :
      (a : Option ArrSpec) (n : ℕ)
      → n ≤ 31
      → get_reg_class (Reg.q_reg n) a ≡ ok (RegClass.fp128, Reg.q_reg n)
  unfolding get_reg_class
  get_reg_class-q a n h = ground (
    arith,
    laws.q_number n h,
    laws.sp_number,
    laws.xzr_number,
    laws.wsp_number,
    laws.wzr_number,
    laws.w_below_x,
    laws.x_below_v,
    laws.v_below_b,
    laws.b_below_h,
    laws.h_below_s,
    laws.s_below_d,
    laws.d_below_q,
    laws.q_number 31 (omega arith),
    laws.d_number 31 (omega arith),
    laws.s_number 31 (omega arith),
    laws.h_number 31 (omega arith),
    laws.b_number 31 (omega arith),
    laws.v_number 31 (omega arith),
  )

  pub get_reg_class-d :
      (a : Option ArrSpec) (n : ℕ)
      → n ≤ 31
      → get_reg_class (Reg.d_reg n) a ≡ ok (RegClass.fp64, Reg.q_reg n)
  unfolding get_reg_class
  get_reg_class-d a n h = ground (
    arith,
    laws.d_number n h,
    laws.sp_number,
    laws.xzr_number,
    laws.wsp_number,
    laws.wzr_number,
    laws.w_below_x,
    laws.x_below_v,
    laws.v_below_b,
    laws.b_below_h,
    laws.h_below_s,
    laws.s_below_d,
    laws.d_below_q,
    laws.q_number 31 (omega arith),
    laws.d_number 31 (omega arith),
    laws.s_number 31 (omega arith),
    laws.h_number 31 (omega arith),
    laws.b_number 31 (omega arith),
    laws.v_number 31 (omega arith),
    laws.q_from n h,
  )

  pub get_reg_class-s :
      (a : Option ArrSpec) (n : ℕ)
      → n ≤ 31
      → get_reg_class (Reg.s_reg n) a ≡ ok (RegClass.fp32, Reg.q_reg n)
  unfolding get_reg_class
  get_reg_class-s a n h = ground (
    arith,
    laws.s_number n h,
    laws.sp_number,
    laws.xzr_number,
    laws.wsp_number,
    laws.wzr_number,
    laws.w_below_x,
    laws.x_below_v,
    laws.v_below_b,
    laws.b_below_h,
    laws.h_below_s,
    laws.s_below_d,
    laws.d_below_q,
    laws.q_number 31 (omega arith),
    laws.d_number 31 (omega arith),
    laws.s_number 31 (omega arith),
    laws.h_number 31 (omega arith),
    laws.b_number 31 (omega arith),
    laws.v_number 31 (omega arith),
    laws.q_from n h,
  )

  pub get_reg_class-h :
      (a : Option ArrSpec) (n : ℕ)
      → n ≤ 31
      → get_reg_class (Reg.h_reg n) a ≡ ok (RegClass.fp16, Reg.q_reg n)
  unfolding get_reg_class
  get_reg_class-h a n h = ground (
    arith,
    laws.h_number n h,
    laws.sp_number,
    laws.xzr_number,
    laws.wsp_number,
    laws.wzr_number,
    laws.w_below_x,
    laws.x_below_v,
    laws.v_below_b,
    laws.b_below_h,
    laws.h_below_s,
    laws.s_below_d,
    laws.d_below_q,
    laws.q_number 31 (omega arith),
    laws.d_number 31 (omega arith),
    laws.s_number 31 (omega arith),
    laws.h_number 31 (omega arith),
    laws.b_number 31 (omega arith),
    laws.v_number 31 (omega arith),
    laws.q_from n h,
  )

  pub get_reg_class-b :
      (a : Option ArrSpec) (n : ℕ)
      → n ≤ 31
      → get_reg_class (Reg.b_reg n) a ≡ ok (RegClass.fp8, Reg.q_reg n)
  unfolding get_reg_class
  get_reg_class-b a n h = ground (
    arith,
    laws.b_number n h,
    laws.sp_number,
    laws.xzr_number,
    laws.wsp_number,
    laws.wzr_number,
    laws.w_below_x,
    laws.x_below_v,
    laws.v_below_b,
    laws.b_below_h,
    laws.h_below_s,
    laws.s_below_d,
    laws.d_below_q,
    laws.q_number 31 (omega arith),
    laws.d_number 31 (omega arith),
    laws.s_number 31 (omega arith),
    laws.h_number 31 (omega arith),
    laws.b_number 31 (omega arith),
    laws.v_number 31 (omega arith),
    laws.q_from n h,
  )

  pub get_reg_class-xzr :
      (a : Option ArrSpec) → get_reg_class Reg.xzr a ≡ ok (RegClass.gpr64, Reg.xzr)
  unfolding get_reg_class
  get_reg_class-xzr a = ground (arith, laws.sp_number, laws.xzr_number)

  pub get_reg_class-sp : (a : Option ArrSpec) → get_reg_class Reg.sp a ≡ ok (RegClass.gpr64, Reg.sp)
  unfolding get_reg_class
  get_reg_class-sp a = ground (arith)

  pub get_reg_class-wsp :
      (a : Option ArrSpec) → get_reg_class Reg.wsp a ≡ ok (RegClass.gpr32, Reg.sp)
  unfolding get_reg_class
  get_reg_class-wsp a = ground (
    arith, laws.sp_number, laws.xzr_number, laws.wsp_number, laws.wzr_number, laws.w_below_x,
    laws.x_below_v, laws.v_below_b, laws.b_below_h, laws.h_below_s, laws.s_below_d, laws.d_below_q,
  )

  pub get_reg_class-wzr :
      (a : Option ArrSpec) → get_reg_class Reg.wzr a ≡ ok (RegClass.gpr32, Reg.xzr)
  unfolding get_reg_class
  get_reg_class-wzr a = ground (
    arith, laws.sp_number, laws.xzr_number, laws.wsp_number, laws.wzr_number, laws.w_below_x,
    laws.x_below_v, laws.v_below_b, laws.b_below_h, laws.h_below_s, laws.s_below_d, laws.d_below_q,
    laws.xzr_from,
  )

  pub get_reg_class-v :
      (a : ArrSpec) (n : ℕ)
      → n ≤ 31
      → get_reg_class (Reg.v_reg n) (some a) ≡ ok (RegClass.simd a, Reg.v_reg n)
  unfolding get_reg_class
  get_reg_class-v a n h = ground (
    arith,
    laws.v_number n h,
    laws.sp_number,
    laws.xzr_number,
    laws.wsp_number,
    laws.wzr_number,
    laws.w_below_x,
    laws.x_below_v,
    laws.v_below_b,
    laws.b_below_h,
    laws.h_below_s,
    laws.s_below_d,
    laws.d_below_q,
    laws.q_number 31 (omega arith),
    laws.d_number 31 (omega arith),
    laws.s_number 31 (omega arith),
    laws.h_number 31 (omega arith),
    laws.b_number 31 (omega arith),
    laws.v_number 31 (omega arith),
  )
