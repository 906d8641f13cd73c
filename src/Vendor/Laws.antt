-- ===== src/Vendor/Laws.antt =====
-- Documented facts about the enums of bad64 and iced-x86 that the register code relies on: the
-- families stand in blocks of consecutive discriminants.
use xob.Base.{ℕ, ◌+◌, ◌≤◌, ◌<◌, ◌≡◌, some}
use xob.Vendor.{Vendor}
use xob.Vendor.Bad64.{Reg}
use xob.Vendor.Iced.{Register}

module _ (v : Vendor) where
  -- `bad64::Reg`: W0 to W30, WZR, WSP, X0 to X30, XZR, SP, V0 to V31, and so on for B, H, S, D and Q.
  pub record ArmLaws : Type 0 where
    pub w_number : (n : ℕ) → n ≤ 30 → v.reg_number (Reg.w_reg n) ≡ v.reg_number (Reg.w_reg 0) + n
    pub wzr_number : v.reg_number Reg.wzr ≡ v.reg_number (Reg.w_reg 0) + 31
    pub wsp_number : v.reg_number Reg.wsp ≡ v.reg_number (Reg.w_reg 0) + 32
    pub x_number : (n : ℕ) → n ≤ 30 → v.reg_number (Reg.x_reg n) ≡ v.reg_number (Reg.x_reg 0) + n
    pub xzr_number : v.reg_number Reg.xzr ≡ v.reg_number (Reg.x_reg 0) + 31
    pub sp_number : v.reg_number Reg.sp ≡ v.reg_number (Reg.x_reg 0) + 32
    pub v_number : (n : ℕ) → n ≤ 31 → v.reg_number (Reg.v_reg n) ≡ v.reg_number (Reg.v_reg 0) + n
    pub b_number : (n : ℕ) → n ≤ 31 → v.reg_number (Reg.b_reg n) ≡ v.reg_number (Reg.b_reg 0) + n
    pub h_number : (n : ℕ) → n ≤ 31 → v.reg_number (Reg.h_reg n) ≡ v.reg_number (Reg.h_reg 0) + n
    pub s_number : (n : ℕ) → n ≤ 31 → v.reg_number (Reg.s_reg n) ≡ v.reg_number (Reg.s_reg 0) + n
    pub d_number : (n : ℕ) → n ≤ 31 → v.reg_number (Reg.d_reg n) ≡ v.reg_number (Reg.d_reg 0) + n
    pub q_number : (n : ℕ) → n ≤ 31 → v.reg_number (Reg.q_reg n) ≡ v.reg_number (Reg.q_reg 0) + n
    pub w_below_x : v.reg_number (Reg.w_reg 0) + 32 < v.reg_number (Reg.x_reg 0)
    pub x_below_v : v.reg_number (Reg.x_reg 0) + 32 < v.reg_number (Reg.v_reg 0)
    pub v_below_b : v.reg_number (Reg.v_reg 0) + 31 < v.reg_number (Reg.b_reg 0)
    pub b_below_h : v.reg_number (Reg.b_reg 0) + 31 < v.reg_number (Reg.h_reg 0)
    pub h_below_s : v.reg_number (Reg.h_reg 0) + 31 < v.reg_number (Reg.s_reg 0)
    pub s_below_d : v.reg_number (Reg.s_reg 0) + 31 < v.reg_number (Reg.d_reg 0)
    pub d_below_q : v.reg_number (Reg.d_reg 0) + 31 < v.reg_number (Reg.q_reg 0)
    -- `Reg::from_u32` inverts the discriminant.
    pub x_from : (n : ℕ) → n ≤ 30 → v.reg_from (v.reg_number (Reg.x_reg 0) + n) ≡ some (Reg.x_reg n)
    pub xzr_from : v.reg_from (v.reg_number (Reg.x_reg 0) + 31) ≡ some Reg.xzr
    pub q_from : (n : ℕ) → n ≤ 31 → v.reg_from (v.reg_number (Reg.q_reg 0) + n) ≡ some (Reg.q_reg n)

  -- `iced_x86::Register`: AL, CL, DL, BL, four high bytes, SPL and on; AX to R15W; RAX to R15.
  pub record RegisterLaws : Type 0 where
    pub r64_number :
        (n : ℕ)
        → n ≤ 15
        → v.register_number (Register.r64 n) ≡ v.register_number (Register.r64 0) + n
    -- Adding to a discriminant gives the register that stands there.
    pub r16_from :
        (n : ℕ)
        → n ≤ 15
        → v.register_from (v.register_number (Register.r16 0) + n) ≡ some (Register.r16 n)
    pub r8_low_from :
        (n : ℕ)
        → n ≤ 3
        → v.register_from (v.register_number (Register.r8 0) + n) ≡ some (Register.r8 n)
    pub r8_from :
        (n : ℕ)
        → 4 ≤ n
        → n ≤ 15
        → v.register_from (v.register_number (Register.r8 0) + n + 4) ≡ some (Register.r8 n)
    pub full32 : (n : ℕ) → n ≤ 15 → v.full_register32 (Register.r64 n) ≡ Register.r32 n
    pub full_of_r64 : (n : ℕ) → n ≤ 15 → v.full_register (Register.r64 n) ≡ Register.r64 n
    pub full_of_r32 : (n : ℕ) → n ≤ 15 → v.full_register (Register.r32 n) ≡ Register.r64 n
