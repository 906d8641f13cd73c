-- ===== src/Finalize/Offsets.antt =====
-- The instruction map that `finalize_chunk` builds.
use xob.Base.{
  ℕ, zero, suc, ◌≡◌, ◌<◌, ◌^◌, refl, sym, arith, List, [], ◌∷◌, length, some, get_elem?, Bool-cases,
  inl, inr, ltb, ltb→lt, lt→ltb, Option,
}
use xob.Outcome.{Outcome, ok, panic, ok-bind, ok-injective}
use xob.Finalize.{Platform, Encoded, byte_offset, to_u16, instr_offsets}

-- Entry `i` of the map is the byte offset of the x86 instruction `x`, and fits in 16 bits.
pub record Mapped ⦃p : Platform⦄ (enc : Encoded) (x o : ℕ) : Type 0 where
  pub offset : byte_offset enc x ≡ ok o
  pub fits : o < 2 ^ 16

Option-some : {x y : ℕ} → ◌≡◌ {A = Option ℕ} (some x) (some y) → x ≡ y
Option-some e = cc

pub to_u16-fits : ⦃p : Platform⦄ (n o : ℕ) → to_u16 n ≡ ok o → (n ≡ o) × (o < 2 ^ 16)
unfolding to_u16
to_u16-fits n o h = elim (Bool-cases (ltb n (2 ^ 16))) [
  | inl small ↦
      (let same = ok-injective (rw small at h) in (same, rw same at (ltb→lt n (2 ^ 16) small)))
  | inr big ↦ (let bad : ◌≡◌ {A = Outcome ℕ} panic (ok o) = rw big at h in cc)
]

-- The map has an entry for each of the first `n` instructions, their byte offsets in order.
abbrev pub Covers : ⦃p : Platform⦄ → Encoded → ℕ → List ℕ → List ℕ → Type 0
Covers enc n x86_idxs instr_map =
    (length instr_map ≡ n)
    × ((i : ℕ)
        → i < n
        → (x : ℕ) × (o : ℕ) × (get_elem? x86_idxs i ≡ some x)
          × (get_elem? instr_map i ≡ some o)
          × Mapped enc x o)

Covers-cons :
    ⦃p : Platform⦄ (enc : Encoded) (n x o : ℕ) (xs os : List ℕ)
    → Mapped enc x o
    → Covers enc n xs os
    → Covers enc (suc n) (x ∷ xs) (o ∷ os)
Covers-cons enc n x o xs os here (len, rest) = (
  omega arith,
  elim [ zero ↦ λ _. (x, o, refl, refl, here) | suc i ↦ λ lt. rest i (omega arith) ],
)

-- A map that is built has one entry for each of the first `n` indices, the byte offset of the x86
-- instruction with that index, and every entry is below 2 ^ 16.
pub instr_offsets-Covers :
    ⦃p : Platform⦄ (enc : Encoded) (n : ℕ) (x86_idxs instr_map : List ℕ)
    → instr_offsets enc n x86_idxs ≡ ok instr_map
    → Covers enc n x86_idxs instr_map
unfolding instr_offsets
instr_offsets-Covers enc zero xs m h =
    rw (sym (ok-injective h)) (refl, λ i lt. absurd (omega arith))
instr_offsets-Covers enc (suc n) [] m h = cc
instr_offsets-Covers enc (suc n) (x ∷ xs) m h =
    let (raw, e1, h1) = ok-bind (byte_offset enc x) _ m h in
    let (o, e2, h2) = ok-bind (to_u16 raw) _ m h1 in
    let (rest, e3, h3) = ok-bind (instr_offsets enc n xs) _ m h2 in
    let (same, fits) = to_u16-fits raw o e2 in
    rw (sym (ok-injective h3)) (
      Covers-cons enc n x o xs rest (record { offset = rw same at e1; fits = fits })
        (instr_offsets-Covers enc n xs rest e3))

to_u16-ok : ⦃p : Platform⦄ (o : ℕ) → o < 2 ^ 16 → to_u16 o ≡ ok o
unfolding to_u16
to_u16-ok o h = rw (lt→ltb o (2 ^ 16) h) refl

-- The map is built whenever there is an index for each of the `n` instructions and its byte offset is
-- known and fits in 16 bits.
pub instr_offsets-total :
    ⦃p : Platform⦄ (enc : Encoded) (n : ℕ) (x86_idxs : List ℕ)
    → ((i : ℕ) → i < n → (x : ℕ) × (o : ℕ) × (get_elem? x86_idxs i ≡ some x) × Mapped enc x o)
    → (instr_map : List ℕ) × (instr_offsets enc n x86_idxs ≡ ok instr_map)
unfolding instr_offsets
instr_offsets-total enc zero xs h = ([], refl)
instr_offsets-total enc (suc n) [] h = let (x, o, e, _) = h 0 (omega arith) in cc
instr_offsets-total enc (suc n) (x ∷ xs) h =
    let (x', o, same, here) = h 0 (omega arith) in
    let (rest, e) = instr_offsets-total enc n xs (λ i lt. h (suc i) (omega arith)) in
    let offset : byte_offset enc x ≡ ok o = rw (Option-some same) here.offset in
    (o ∷ rest, rw (offset, to_u16-ok o here.fits, e) refl)
