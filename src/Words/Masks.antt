-- ===== src/Words/Masks.antt =====
-- `&` with a mask of high bits, as arithmetic: the masks of src/loader.rs.
use Prim.Native.Nat.{min, digits, bit_and, bit_and-bitwise}
use mathlib.Core.Path.{ap}
use native.Mathlib.Nat.{
  le_refl, suc-add, pow-suc, pow-zero, zero-add, mul_assoc, one-mul, zero-div, zero-mul, div-one,
  div-div-eq-div-mul, one-le-pow,
}
use xob.Base.{ℕ, zero, suc, ◌+◌, ◌-◌, ◌*◌, ◌/◌, ◌%◌, ◌^◌, ◌≤◌, ◌<◌, ◌≡◌, sym, ◌∙◌, arith}

-- `r` ones followed by `k` zeros.
abbrev mask : ℕ → ℕ → ℕ
mask zero r = 2 ^ r - 1
mask (suc k) r = 2 * mask k r

pub pow_step : (k : ℕ) → 2 ^ suc k ≡ 2 * 2 ^ k
pow_step k = omega (arith, pow-suc 2 k)

pub power-add : (k r : ℕ) → 2 ^ (k + r) ≡ 2 ^ k * 2 ^ r
power-add zero r = simp (zero-add, pow-zero, one-mul)
power-add (suc k) r =
    rw (suc-add k r, pow_step (k + r), pow_step k)
      (omega (arith, ap (λ (t : ℕ). 2 * t) (power-add k r), mul_assoc 2 (2 ^ k) (2 ^ r)))

half-mask : (r : ℕ) → (2 ^ suc r - 1) / 2 ≡ 2 ^ r - 1
half-mask r = omega (arith, pow_step r, one-le-pow r 2)

odd-mask : (r : ℕ) → (2 ^ suc r - 1) % 2 ≡ 1
odd-mask r = omega (arith, pow_step r, one-le-pow r 2)

halve-double : (m : ℕ) → 2 * m / 2 ≡ m
halve-double m = omega arith

double-even : (m : ℕ) → 2 * m % 2 ≡ 0
double-even m = omega arith

digits-mask :
    (n k r a : ℕ)
    → a ≤ n
    → a < 2 ^ k * 2 ^ r
    → digits (λ b. 0) min n a (mask k r) ≡ a / 2 ^ k * 2 ^ k
digits-mask zero k r zero le lt = simp (zero-div, zero-mul)
digits-mask zero k r (suc a) le lt = absurd (omega arith)
digits-mask (suc n) k r zero le lt = simp (zero-div, zero-mul)
digits-mask (suc n) zero zero (suc a) le lt = absurd (omega arith)
digits-mask (suc n) zero (suc r) (suc a) le lt =
    let ih = digits-mask n zero r (suc a / 2) (omega arith) (omega (arith, pow_step r)) in
    rw (half-mask r, odd-mask r) (ground (arith, ih, div-one (suc a), div-one (suc a / 2)))
digits-mask (suc n) (suc k) r (suc a) le lt =
    let bound : suc a / 2 < 2 ^ k * 2 ^ r =
      omega (arith, lt, mul_assoc 2 (2 ^ k) (2 ^ r), ap (λ (t : ℕ). t * 2 ^ r) (pow_step k)) in
    let ih = digits-mask n k r (suc a / 2) (omega arith) bound in
    rw
      (
        halve-double (mask k r),
        double-even (mask k r),
        ih,
        pow_step k,
        sym (div-div-eq-div-mul (suc a) 2 (2 ^ k)),
      )
      (ground (arith, mul_assoc (suc a / 2 / 2 ^ k) 2 (2 ^ k)))

mask-lem : (k r : ℕ) → mask k r ≡ 2 ^ k * 2 ^ r - 2 ^ k
mask-lem zero r = omega arith
mask-lem (suc k) r = rw (mask-lem k r, pow_step k) (omega (arith, mul_assoc 2 (2 ^ k) (2 ^ r)))

-- `n & !((1 << k) - 1)` clears the `k` low bits.
pub keep_high :
    (n k : ℕ) → k ≤ 64 → n < 2 ^ 64 → bit_and n (2 ^ 64 - 1 - (2 ^ k - 1)) ≡ n / 2 ^ k * 2 ^ k
keep_high n k le lt =
    let sum : k + (64 - k) ≡ 64 = omega arith in
    let total : 2 ^ k * 2 ^ (64 - k) ≡ 2 ^ 64 =
      sym (power-add k (64 - k)) ∙ ap (λ (t : ℕ). 2 ^ t) sum in
    let whole : 2 ^ 64 - 1 - (2 ^ k - 1) ≡ mask k (64 - k) =
      omega (arith, mask-lem k (64 - k), total, one-le-pow k 2) in
    rw whole (
      bit_and-bitwise n (mask k (64 - k))
      ∙ digits-mask n k (64 - k) n (le_refl n) (omega (arith, total)))
