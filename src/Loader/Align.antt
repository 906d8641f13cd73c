-- ===== src/Loader/Align.antt =====
-- `align_to_next` of src/loader.rs: rounding up to a power of two.
use native.Mathlib.Nat.{
  one-le-pow, mul-le-mul_right, suc-mul, pow-le-pow_right, mod-eq_of_lt, div-mul-le_self,
  lt-div-mul-add,
}
use xob.Base.{
  Bool-cases, inl, inr, leb, leb→le, ℕ, suc, ◌+◌, ◌-◌, ◌*◌, ◌/◌, ◌^◌, ◌≤◌, ◌<◌, ◌≡◌, arith,
}
use xob.Words.{keep_high}
use xob.Loader.{align_to_next}

-- `m` is the least multiple of `a` that is not below `n`.
pub record IsNextMultiple (n a m : ℕ) : Type 0 where
  pub multiple : (q : ℕ) × (m ≡ q * a)
  pub above : n ≤ m
  pub close : m < n + a
  pub least : (q : ℕ) → n ≤ q * a → m ≤ q * a

small_exponent : (k : ℕ) → 2 ^ k ≤ 2 ^ 64 → k ≤ 64
small_exponent k le = elim (Bool-cases (leb k 64)) [
  | inl small ↦ leb→le k 64 small
  | inr large ↦
      let grown : 2 ^ 65 ≤ 2 ^ k = pow-le-pow_right {n = 2} (omega arith) {i = 65} (ground arith) in
      absurd (omega (arith, grown, le))
]

-- Multiples of `a` are at least `a` apart.
pub next_multiple : (q p a : ℕ) → q * a < p * a + a → q * a ≤ p * a
next_multiple q p a lt = elim (Bool-cases (leb q p)) [
  | inl le ↦ mul-le-mul_right a (leb→le q p le)
  | inr gt ↦
      let above : suc p * a ≤ q * a = mul-le-mul_right a (ground arith) in
      absurd (omega (arith, above, lt, suc-mul p a))
]

align_to_next-quotient :
    (n k : ℕ) → n + 2 ^ k ≤ 2 ^ 64 → align_to_next n (2 ^ k) ≡ (n + 2 ^ k - 1) / 2 ^ k * 2 ^ k
unfolding align_to_next
align_to_next-quotient n k fits =
    let some_page = one-le-pow k 2 (omega arith) in
    let fits' : n + 2 ^ k - 1 < 2 ^ 64 = omega (arith, fits, some_page) in
    rw (mod-eq_of_lt fits')
      (keep_high (n + 2 ^ k - 1) k (small_exponent k (omega (arith, fits))) fits')

-- For a power of two that does not take the address beyond 64 bits, `align_to_next` gives the least
-- multiple that is not below the address, less than the power of two above it.
pub align_to_next-IsNextMultiple :
    (n k : ℕ) → n + 2 ^ k ≤ 2 ^ 64 → IsNextMultiple n (2 ^ k) (align_to_next n (2 ^ k))
align_to_next-IsNextMultiple n k fits =
    let some_page = one-le-pow k 2 (omega arith) in
    let q = (n + 2 ^ k - 1) / 2 ^ k in
    let at = align_to_next-quotient n k fits in
    let low = div-mul-le_self (n + 2 ^ k - 1) (2 ^ k) in
    let high = lt-div-mul-add {a = n + 2 ^ k - 1} some_page in
    record {
      multiple = (q, at);
      above = omega (arith, at, high, some_page);
      close = omega (arith, at, low, some_page);
      least = λ p le. rw at (next_multiple q p (2 ^ k) (omega (arith, low, le, some_page)));
    }
