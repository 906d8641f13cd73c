-- ===== src/Register/Allocation.antt =====
-- Where `translate_reg` puts the general registers, and which of them share a place.
use mathlib.Core.Path.{subst}
use xob.Base.{
  ℕ, ◌+◌, ◌-◌, ◌*◌, ◌≤◌, ◌≡◌, ◌≢◌, ◌↔◌, ◌⊎◌, refl, sym, ap, ◌∙◌, arith, Bool, true, false, Option,
  none, some, leb, ◌==◌, if◌then◌else◌, ◌&&◌, ◌||◌, not, leb→le, check_below, check_below-at,
}
use xob.Outcome.{Outcome, ok}
use xob.Vendor.{Vendor}
use xob.Vendor.Laws.{ArmLaws, RegisterLaws}
use xob.Vendor.Bad64.{Reg, ArrSpec}
use xob.Vendor.Iced.{Register}
use xob.Register.{
  RegClass, NativeRegClass, RegTranslation, direct_gpr, translate_reg, translate_direct,
  translate_indirect_reg, to_native_class,
}
use xob.Register.Context.{indirect_fp_regs_offset}
use xob.Register.Classes.{get_reg_class-x, get_reg_class-w}
use xob.Register.Widths.{at_width, lower_to_gpr64, lower_to_gpr32}

-- The allocation read off the source: a hardware register, or a byte offset in the context.
pub data Place : Type 0 where
  hardware : ℕ → Place
  slot : ℕ → Place

abbrev pub slot_of : ℕ → ℕ
slot_of n = if leb n 18 then n * 8 else (n - 11) * 8

abbrev pub place_or : ℕ → Option Register → Place
place_or n (some (Register.r64 i)) = Place.hardware i
place_or n _ = Place.slot (slot_of n)

abbrev pub place_of : ℕ → Place
place_of n = place_or n (direct_gpr n)

-- The translation that names a place at a width.
abbrev pub at_place : NativeRegClass → Place → RegTranslation
at_place c (Place.hardware i) = RegTranslation.direct (at_width c i)
at_place c (Place.slot o) = RegTranslation.indirect o c

abbrev direct_test : ℕ → Option Register → Bool
direct_test n none = leb n 18 || (leb 24 n && leb n 28)
direct_test n (some (Register.r64 i)) = leb i 15
direct_test n (some _) = false

direct_table : check_below (λ n. direct_test n (direct_gpr n)) 31 ≡ true
unfolding check_below
direct_table = refl

module _ ⦃v : Vendor⦄ (regs : RegisterLaws v) (laws : ArmLaws v) where
  translate_slot :
      (n : ℕ) (c : RegClass)
      → n ≤ 30
      → direct_test n none ≡ true
      → translate_indirect_reg (Reg.x_reg n) c
        ≡ ok (RegTranslation.indirect (slot_of n) (to_native_class c))
  unfolding translate_indirect_reg
  translate_slot n c h t = ground (
    arith,
    laws.x_number n h,
    laws.x_number 18 (omega arith),
    laws.x_number 24 (omega arith),
    laws.x_number 28 (omega arith),
  )

  translate_place :
      (o : Option Register) (n : ℕ)
      → n ≤ 30
      → direct_test n o ≡ true
      → (translate_direct o (Reg.x_reg n) RegClass.gpr64
          ≡ ok (at_place NativeRegClass.gpr64 (place_or n o), RegClass.gpr64))
        × (translate_direct o (Reg.x_reg n) RegClass.gpr32
            ≡ ok (at_place NativeRegClass.gpr32 (place_or n o), RegClass.gpr32))
  unfolding translate_direct to_native_class
  translate_place none n h t =
      (rw (translate_slot n RegClass.gpr64 h t), rw (translate_slot n RegClass.gpr32 h t))
  translate_place (some (Register.r64 i)) n h t =
      let le = leb→le i 15 t in (rw (lower_to_gpr64 regs i le), rw (lower_to_gpr32 regs i le))
  translate_place (some _) n h t = cc

  -- An X register is translated to its place at 64 bits, and the W register of the same number to
  -- the same place at 32 bits.
  pub translate-place_of :
      (n : ℕ) (a : Option ArrSpec)
      → n ≤ 30
      → (translate_reg (Reg.x_reg n) a
          ≡ ok (at_place NativeRegClass.gpr64 (place_of n), RegClass.gpr64))
        × (translate_reg (Reg.w_reg n) a
            ≡ ok (at_place NativeRegClass.gpr32 (place_of n), RegClass.gpr32))
  unfolding translate_reg
  translate-place_of n a h =
      let (wide, narrow) = translate_place (direct_gpr n) n h (
        check_below-at (λ (k : ℕ). direct_test k (direct_gpr k)) 31 n direct_table (omega arith)) in
      (rw (get_reg_class-x laws a n h) wide, rw (get_reg_class-w laws a n h) narrow)

abbrev pub place_eq : Place → Place → Bool
place_eq (Place.hardware i) (Place.hardware j) = i == j
place_eq (Place.slot i) (Place.slot j) = i == j
place_eq _ _ = false

pub place_eq_iff : (p q : Place) → (place_eq p q ≡ true) ↔ (p ≡ q)
place_eq_iff (Place.hardware i) (Place.hardware j) = ground arith
place_eq_iff (Place.slot i) (Place.slot j) = ground arith
place_eq_iff (Place.hardware i) (Place.slot j) = (λ e. cc, λ e. cc)
place_eq_iff (Place.slot i) (Place.hardware j) = (λ e. cc, λ e. cc)

-- The pairs of distinct registers that share a slot.
abbrev shifted : ℕ → ℕ → Bool
shifted m n = leb 13 m && leb m 17 && n == m + 11

abbrev sharing_test : ℕ → ℕ → Bool
sharing_test m n =
    if place_eq (place_of m) (place_of n)
    then m == n || shifted m n || shifted n m
    else not (m == n || shifted m n || shifted n m)

sharing_table : check_below (λ m. check_below (sharing_test m) 31) 31 ≡ true
unfolding check_below
sharing_table = refl

-- Two of X0 to X30 share their place exactly when they are the same, or are X13 to X17 with X24 to
-- X28 in turn.
abbrev pub Shares : ℕ → ℕ → Type 0
Shares m n = (m ≡ n) ⊎ (((13 ≤ m) × (m ≤ 17) × (n ≡ m + 11)) ⊎ ((13 ≤ n) × (n ≤ 17) × (m ≡ n + 11)))

sharing_iff :
    (b : Bool) (m n : ℕ)
    → (if b
        then m == n || shifted m n || shifted n m
        else not (m == n || shifted m n || shifted n m))
      ≡ true
    → (b ≡ true) ↔ Shares m n
sharing_iff true m n h = (λ _. ground arith, λ _. refl)
sharing_iff false m n h = (λ e. cc, λ s. ground arith)

place_of_iff : (m n : ℕ) → m ≤ 30 → n ≤ 30 → (place_of m ≡ place_of n) ↔ Shares m n
place_of_iff m n hm hn =
    let row =
      check_below-at (λ (k : ℕ). check_below (sharing_test k) 31) 31 m sharing_table
        (omega arith) in
    let here = check_below-at (sharing_test m) 31 n row (omega arith) in
    let (to, from) = sharing_iff (place_eq (place_of m) (place_of n)) m n here in
    let (to_place, from_place) = place_eq_iff (place_of m) (place_of n) in
    (λ e. to (from_place e), λ s. to_place (from s))

ok-injective : {A : Type 0} {x y : A} → ◌≡◌ {A = Outcome A} (ok x) (ok y) → x ≡ y
ok-injective e = cc

at_place-injective :
    (p q : Place) → at_place NativeRegClass.gpr64 p ≡ at_place NativeRegClass.gpr64 q → p ≡ q
at_place-injective (Place.hardware i) (Place.hardware j) e = cc
at_place-injective (Place.slot i) (Place.slot j) e = cc
at_place-injective (Place.hardware i) (Place.slot j) e = cc
at_place-injective (Place.slot i) (Place.hardware j) e = cc

abbrev slot_test : ℕ → Place → Bool
slot_test n (Place.hardware _) = true
slot_test n (Place.slot o) =
    if n == 18 then o == indirect_fp_regs_offset else leb (o + 8) indirect_fp_regs_offset

slot_table : check_below (λ n. slot_test n (place_of n)) 31 ≡ true
unfolding check_below
slot_table = refl

slot_test-bounds :
    (n o : ℕ)
    → slot_test n (Place.slot o) ≡ true
    → ((o + 8 ≤ indirect_fp_regs_offset) ↔ (n ≢ 18)) × (n ≡ 18 → o ≡ indirect_fp_regs_offset)
slot_test-bounds n o h = ((λ k e. ground arith, λ k. ground arith), λ e. ground arith)

at_place-slot :
    (p : Place) (o : ℕ) (c : NativeRegClass)
    → at_place NativeRegClass.gpr64 p ≡ RegTranslation.indirect o c
    → p ≡ Place.slot o
at_place-slot (Place.hardware i) o c e = cc
at_place-slot (Place.slot i) o c e = cc

module _ ⦃v : Vendor⦄ (regs : RegisterLaws v) (laws : ArmLaws v) where
  -- Two of X0 to X30 are translated alike exactly when they are the same register, or one is
  -- X(13+k) and the other X(24+k) for a k up to 4: those pairs share a slot of the context.
  pub translate_reg-sharing :
      (m n : ℕ)
      → m ≤ 30
      → n ≤ 30
      → (translate_reg (Reg.x_reg m) none ≡ translate_reg (Reg.x_reg n) none) ↔ Shares m n
  translate_reg-sharing m n hm hn =
      let (em, _) = translate-place_of regs laws m none hm in
      let (en, _) = translate-place_of regs laws n none hn in
      let (to, from) = place_of_iff m n hm hn in
      (
        λ e. to (
            at_place-injective _ _
              (ap (λ (p : RegTranslation × RegClass). p.0) (ok-injective (sym em ∙ e ∙ en)))),
        λ s. em ∙ (rw (from s) (sym en)),
      )

  -- A register of X0 to X30 that is translated to a slot of the context lies in the array of general
  -- slots exactly when it is not X18, whose slot begins where the vector slots begin.
  pub slot_bounds :
      (n o : ℕ) (c : NativeRegClass)
      → n ≤ 30
      → translate_reg (Reg.x_reg n) none ≡ ok (RegTranslation.indirect o c, RegClass.gpr64)
      → ((o + 8 ≤ indirect_fp_regs_offset) ↔ (n ≢ 18)) × (n ≡ 18 → o ≡ indirect_fp_regs_offset)
  slot_bounds n o c h e =
      let (en, _) = translate-place_of regs laws n none h in
      let at =
        at_place-slot (place_of n) o c
          (ap (λ (p : RegTranslation × RegClass). p.0) (ok-injective (sym en ∙ e))) in
      let row =
        check_below-at (λ (k : ℕ). slot_test k (place_of k)) 31 n slot_table (omega arith) in
      slot_test-bounds n o (subst (λ p. slot_test n p ≡ true) at row)
