-- ===== src/Runner/Offsets.antt =====
-- The scan of an instruction map from its end.
use xob.Base.{
  ℕ, zero, suc, ◌≤◌, ◌<◌, ◌≡◌, ◌⊎◌, inl, inr, refl, List, [], ◌∷◌, Option, none, some, arith,
  get_elem?, Option-cases,
}
use native.Mathlib.Decide.{dec_le}
use xob.Runner.{find_offset, next_offset}

-- The offsets of a map never fall.
abbrev pub AllFrom : ℕ → List ℕ → Type 0
AllFrom lo [] = Unit
AllFrom lo (o ∷ os) = (lo ≤ o) × AllFrom o os

abbrev pub Entry : List ℕ → ℕ → ℕ → Type 0
Entry os i o = get_elem? os i ≡ some o

-- What the scan for `x` finds: the last entry that is not above `x`.
pub record LastAtMost (os : List ℕ) (x i : ℕ) : Type 0 where
  pub offset : ℕ
  pub found : Entry os i offset
  pub at_most : offset ≤ x
  pub last : (j p : ℕ) → Entry os j p → i < j → x < p

next_offset-none : (r : Option ℕ) (o x : ℕ) → next_offset r o x ≡ none → (r ≡ none) × (x < o)
next_offset-none none o x h = (refl, ground arith)
next_offset-none (some i) o x h = cc

next_offset-some :
    (r : Option ℕ) (o x i : ℕ)
    → next_offset r o x ≡ some i
    → ((k : ℕ) × (r ≡ some k) × (i ≡ suc k)) ⊎ ((r ≡ none) × (o ≤ x) × (i ≡ 0))
next_offset-some none o x i h = inr (refl, ground arith, ground arith)
next_offset-some (some k) o x i h = inl (k, refl, cc)

find_offset-none :
    (os : List ℕ) (x : ℕ) → find_offset os x ≡ none → (j p : ℕ) → Entry os j p → x < p
unfolding find_offset
find_offset-none [] x h j p e = cc
find_offset-none (o ∷ os) x h zero p e =
    let (_, above) = next_offset-none (find_offset os x) o x h in ground arith
find_offset-none (o ∷ os) x h (suc j) p e =
    let (rest, _) = next_offset-none (find_offset os x) o x h in find_offset-none os x rest j p e

last_here :
    (o : ℕ) (os : List ℕ) (x : ℕ) → find_offset os x ≡ none → o ≤ x → LastAtMost (o ∷ os) x 0
last_here o os x rest le = record {
  offset = o;
  found = refl;
  at_most = le;
  last = elim [
    | zero ↦ λ p e lt. absurd (omega arith)
    | suc j ↦ λ p e lt. find_offset-none os x rest j p e
  ];
}

last_later : (o : ℕ) (os : List ℕ) (x k : ℕ) → LastAtMost os x k → LastAtMost (o ∷ os) x (suc k)
last_later o os x k l = record {
  offset = l.offset;
  found = l.found;
  at_most = l.at_most;
  last = elim [
    | zero ↦ λ p e lt. absurd (omega arith)
    | suc j ↦ λ p e lt. l.last j p e (omega arith)
  ];
}

-- What the scan finds is the last entry of the map that is not above the offset.
pub find_offset-LastAtMost : (os : List ℕ) (x i : ℕ) → find_offset os x ≡ some i → LastAtMost os x i
unfolding find_offset
find_offset-LastAtMost [] x i h = cc
find_offset-LastAtMost (o ∷ os) x i h = elim (next_offset-some (find_offset os x) o x i h) [
  | inl (k, e, e') ↦ rw e' (last_later o os x k (find_offset-LastAtMost os x k e))
  | inr (e, le, e') ↦ rw e' (last_here o os x e le)
]

-- The scan finds an entry as soon as one is not above the offset.
pub find_offset-IsSome :
    (os : List ℕ) (x j p : ℕ)
    → Entry os j p
    → p ≤ x
    → (i : ℕ) × (find_offset os x ≡ some i) × (j ≤ i)
unfolding find_offset
find_offset-IsSome os x j p e le = elim (Option-cases (find_offset os x)) [
  | inl none' ↦ absurd (let above = find_offset-none os x none' j p e in omega arith)
  | inr (i, found) ↦ (i, found, not_below i found)
]
  where
    not_below : (i : ℕ) → find_offset os x ≡ some i → j ≤ i
    not_below i found = elim (dec_le j i) [
      | yes h ↦ h
      | no h ↦ absurd (
          let l = find_offset-LastAtMost os x i found in
          let above = l.last j p e (omega arith) in omega arith)
    ]

-- In a map whose offsets never fall, a later entry is not below an earlier one.
pub Entry-mono :
    (lo : ℕ) (os : List ℕ) (i j p q : ℕ)
    → AllFrom lo os
    → Entry os i p
    → Entry os j q
    → i ≤ j
    → (p ≤ q) × (lo ≤ p)
Entry-mono lo [] i j p q s e e' le = cc
Entry-mono lo (o ∷ os) zero zero p q s e e' le = ground arith
Entry-mono lo (o ∷ os) zero (suc j) p q s e e' le =
    let rest = Entry-mono o os j j q q s.1 e' e' (omega arith) in ground arith
Entry-mono lo (o ∷ os) (suc i) zero p q s e e' le = absurd (omega arith)
Entry-mono lo (o ∷ os) (suc i) (suc j) p q s e e' le =
    let rest = Entry-mono o os i j p q s.1 e e' (omega arith) in omega arith
