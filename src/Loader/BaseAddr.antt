-- ===== src/Loader/BaseAddr.antt =====
-- `generate_suitable_base_addr` of src/loader.rs: the place for an object.
use Prim.Native.Nat.{max}
use native.Mathlib.Nat.{mul-le-mul_right, suc-mul, add-mul, mul_assoc, pow-le-pow_right}
use xob.Base.{
  ℕ, suc, ◌+◌, ◌-◌, ◌*◌, ◌^◌, ◌≤◌, ◌<◌, ◌≡◌, sym, ◌∙◌, ap, refl, arith, List, [], ◌∷◌, some, leb,
  leb→le, Bool-cases, inl, inr,
}
use xob.Outcome.{ok}
use xob.Words.{power-add}
use xob.Memory.{Memory}
use xob.Loader.{
  Os, Segment, align_to_next, base_segment_align, segments_end, reserved_size, reservation,
  generate_suitable_base_addr,
}
use xob.Loader.Align.{IsNextMultiple, align_to_next-IsNextMultiple}
use xob.Loader.AllSegments.{Every, Every-map}
use xob.Loader.Segments.{next_page}
use xob.Loader.Laws.{OsLaws}

apart_multiples : (x y a : ℕ) → x * a < y * a → x * a + a ≤ y * a
apart_multiples x y a lt = elim (Bool-cases (leb y x)) [
  | inl le ↦ let no : y * a ≤ x * a = mul-le-mul_right a (leb→le y x le) in absurd (omega arith)
  | inr gt ↦
      let up : suc x * a ≤ y * a = mul-le-mul_right a (ground arith) in
      omega (arith, up, suc-mul x a)
]

max-power : (j k : ℕ) → (i : ℕ) × (k ≤ i) × (max (2 ^ j) (2 ^ k) ≡ 2 ^ i)
max-power j k = elim (Bool-cases (leb j k)) [
  | inl le ↦
      let smaller : 2 ^ j ≤ 2 ^ k = pow-le-pow_right (omega arith) (leb→le j k le) in
      (k, omega arith, omega arith)
  | inr gt ↦
      let smaller : 2 ^ k ≤ 2 ^ j =
        pow-le-pow_right {n = 2} (omega arith) {i = k} {j = j} (ground arith) in
      (j, ground arith, omega arith)
]

segments_end-Every :
    (segments : List Segment) → Every (λ s. s.address + s.size ≤ segments_end segments) segments
unfolding segments_end
segments_end-Every [] = tt
segments_end-Every (s ∷ ss) =
    (omega arith, Every-map _ _ ss (λ t le. omega arith) (segments_end-Every ss))

-- A multiple of a large power of two, next to a multiple of a small one.
next-Close :
    (at q k i m : ℕ) → k ≤ i → at ≡ q * 2 ^ k → IsNextMultiple at (2 ^ i) m → m + 2 ^ k ≤ at + 2 ^ i
next-Close at q k i m le on_page next =
    let back : i ≡ i - k + k = omega arith in
    let split : 2 ^ i ≡ 2 ^ (i - k) * 2 ^ k = ap (λ (t : ℕ). 2 ^ t) back ∙ power-add (i - k) k in
    let (p, e) = next.multiple in
    let e' : m ≡ p * 2 ^ (i - k) * 2 ^ k =
      e ∙ ap (λ (t : ℕ). p * t) split ∙ sym (mul_assoc p (2 ^ (i - k)) (2 ^ k)) in
    let total : at + 2 ^ i ≡ (q + 2 ^ (i - k)) * 2 ^ k =
      omega (arith, on_page, split, add-mul q (2 ^ (i - k)) (2 ^ k)) in
    let close : p * 2 ^ (i - k) * 2 ^ k < (q + 2 ^ (i - k)) * 2 ^ k =
      omega (arith, next.close, e', total) in
    omega (arith, apart_multiples (p * 2 ^ (i - k)) (q + 2 ^ (i - k)) (2 ^ k) close, e', total)

reserved_size-lem :
    ⦃os : Os⦄ (segments : List Segment) (base_alignment : ℕ)
    → reserved_size segments base_alignment
      ≡ align_to_next (segments_end segments) os.page_size + base_alignment - os.page_size
unfolding reserved_size
reserved_size-lem segments base_alignment = refl

module _ ⦃os : Os⦄ {contents : ℕ → ℕ → ℕ} (laws : OsLaws os contents) where
  -- Where the first segment at address 0 is aligned to a power of two, the kernel reserves the space
  -- at an address, and neither comes near 2 ^ 64, `generate_suitable_base_addr` returns the least
  -- multiple of that alignment, or of the page size if it is larger, that is not below the address; and
  -- every segment, placed there, ends within the reserved space.
  pub generate_suitable_base_addr-Fits :
      (m mapped : Memory) (segments : List Segment) (j at : ℕ)
      → base_segment_align segments ≡ some (2 ^ j)
      → segments_end segments + os.page_size ≤ 2 ^ 64
      → at + max (2 ^ j) os.page_size ≤ 2 ^ 64
      → os.mmap m (reservation segments (max (2 ^ j) os.page_size)) ≡ some (mapped, at)
      → (base_addr : ℕ) × (generate_suitable_base_addr m segments
          ≡ ok (os.munmap mapped at (reserved_size segments (max (2 ^ j) os.page_size)), base_addr))
        × IsNextMultiple at (max (2 ^ j) os.page_size) base_addr
        × Every
            (λ s.
              base_addr + s.address + s.size
              ≤ at + reserved_size segments (max (2 ^ j) os.page_size))
            segments
  unfolding generate_suitable_base_addr
  generate_suitable_base_addr-Fits m mapped segments j at aligned small fits done =
      let (i, above, power) = max-power j laws.page_bits in
      let larger : max (2 ^ j) os.page_size ≡ 2 ^ i =
        ap (λ (t : ℕ). max (2 ^ j) t) laws.page_is_power ∙ power in
      let next : IsNextMultiple at (max (2 ^ j) os.page_size)
          (align_to_next at (max (2 ^ j) os.page_size)) =
        rw larger (align_to_next-IsNextMultiple at i (omega (arith, fits, larger))) in
      let (q, on_page) =
        laws.page_aligned m mapped (reservation segments (max (2 ^ j) os.page_size)) at done in
      let close =
        next-Close at q laws.page_bits i (align_to_next at (max (2 ^ j) os.page_size)) above
          (on_page ∙ ap (λ (t : ℕ). q * t) laws.page_is_power) (rw (sym larger) next) in
      let end = (next_page laws (segments_end segments) small).above in
      (
        align_to_next at (max (2 ^ j) os.page_size),
        rw (aligned, done) refl,
        next,
        Every-map _ _ segments
            (λ s le.
              let whole = reserved_size-lem segments (max (2 ^ j) os.page_size) in
              omega (arith, le, end, close, larger, whole, laws.page_is_power))
            (segments_end-Every segments),
      )
