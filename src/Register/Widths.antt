-- ===== src/Register/Widths.antt =====
-- Lowering keeps the hardware register and changes its width.
use xob.Base.{ℕ, ◌≤◌, ◌≡◌, ◌≢◌, refl, arith}
use xob.Outcome.{ok}
use xob.Vendor.{Vendor}
use xob.Vendor.Laws.{RegisterLaws}
use xob.Vendor.Iced.{Register}
use xob.Register.{
  NativeRegClass, RegClass, RegTranslation, lower_reg_to_native_class, lower_reg_to_class,
  with_native_class,
}

-- The register with hardware index `n` at the width of the class.
abbrev pub at_width : NativeRegClass → ℕ → Register
at_width NativeRegClass.gpr64 n = Register.r64 n
at_width NativeRegClass.gpr32 n = Register.r32 n
at_width NativeRegClass.gpr16 n = Register.r16 n
at_width NativeRegClass.gpr8 n = Register.r8 n
at_width NativeRegClass.xmm n = Register.xmm n

module _ ⦃v : Vendor⦄ (laws : RegisterLaws v) where
  -- Lowering one of the 16 general registers to a general class gives the part of the same
  -- register that has the width of the class: the low byte for 8 bits.
  pub lower-at_width :
      (c : NativeRegClass) (n : ℕ)
      → n ≤ 15
      → c ≢ NativeRegClass.xmm
      → lower_reg_to_native_class (Register.r64 n) c ≡ ok (at_width c n)
  unfolding lower_reg_to_native_class
  lower-at_width NativeRegClass.gpr64 n h _ =
      ground (arith, laws.r64_number n h, laws.r64_number 15 (omega arith))
  lower-at_width NativeRegClass.gpr32 n h _ =
      ground (arith, laws.r64_number n h, laws.r64_number 15 (omega arith), laws.full32 n h)
  lower-at_width NativeRegClass.gpr16 n h _ =
      ground (arith, laws.r64_number n h, laws.r64_number 15 (omega arith), laws.r16_from n h)
  lower-at_width NativeRegClass.gpr8 n h _ = ground (
    arith,
    laws.r64_number n h,
    laws.r64_number 3 (omega arith),
    laws.r64_number 15 (omega arith),
    laws.r8_low_from n,
    laws.r8_from n,
  )
  lower-at_width NativeRegClass.xmm n h ne = absurd (ne refl)

  -- Changing the width of a translated 32-bit general register to a general class gives the part of
  -- the same register that has the width of the class.
  with_native_class-r32 :
      (c : NativeRegClass) (n : ℕ)
      → n ≤ 15
      → c ≢ NativeRegClass.xmm
      → with_native_class (RegTranslation.direct (Register.r32 n)) c
        ≡ ok (RegTranslation.direct (at_width c n))
  unfolding with_native_class
  with_native_class-r32 c n h ne = rw (laws.full_of_r32 n h, lower-at_width c n h ne)

  pub lower_to_gpr64 :
      (n : ℕ) → n ≤ 15 → lower_reg_to_class (Register.r64 n) RegClass.gpr64 ≡ ok (Register.r64 n)
  unfolding lower_reg_to_class
  lower_to_gpr64 n h = lower-at_width NativeRegClass.gpr64 n h (λ e. cc)

  pub lower_to_gpr32 :
      (n : ℕ) → n ≤ 15 → lower_reg_to_class (Register.r64 n) RegClass.gpr32 ≡ ok (Register.r32 n)
  unfolding lower_reg_to_class
  lower_to_gpr32 n h = lower-at_width NativeRegClass.gpr32 n h (λ e. cc)
