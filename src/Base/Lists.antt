-- ===== src/Base/Lists.antt =====
-- Lists measured and indexed by native numbers, under the library's names.
use Prim.Native.Nat.{ℕ, zero, suc, ◌+◌}
use mathlib.Core.Path.{◌≡◌, refl}
use mathlib.Core.Logic.{◌⊎◌, inl, inr}
use mathlib.Core.List.{List, [], ◌∷◌, ◌++◌}
use mathlib.Core.Option.{Option, none, some}
use native.Mathlib.Omega.{arith}

module _ {ℓ} {A : Type ℓ} where
  abbrev pub length : List A → ℕ
  length [] = 0
  length (x ∷ xs) = suc (length xs)

  abbrev pub get_elem? : List A → ℕ → Option A
  get_elem? [] i = none
  get_elem? (x ∷ xs) zero = some x
  get_elem? (x ∷ xs) (suc i) = get_elem? xs i

  abbrev pub take : ℕ → List A → List A
  take zero xs = []
  take (suc n) [] = []
  take (suc n) (x ∷ xs) = x ∷ take n xs

  pub length-append : (xs ys : List A) → length (xs ++ ys) ≡ length xs + length ys
  length-append [] ys = omega arith
  length-append (x ∷ xs) ys = omega (arith, length-append xs ys)

  -- An element of a list with one more at the end.
  pub get_elem?-snoc :
      (xs : List A) (y : A) (i : ℕ) (r : A)
      → get_elem? (xs ++ y ∷ []) i ≡ some r
      → (get_elem? xs i ≡ some r) ⊎ (r ≡ y)
  get_elem?-snoc [] y zero r h = inr (ground arith)
  get_elem?-snoc [] y (suc i) r h = cc
  get_elem?-snoc (x ∷ xs) y zero r h = inl h
  get_elem?-snoc (x ∷ xs) y (suc i) r h = get_elem?-snoc xs y i r h

  pub get_elem?-append :
      (xs ys : List A) (i : ℕ) (r : A) → get_elem? xs i ≡ some r → get_elem? (xs ++ ys) i ≡ some r
  get_elem?-append [] ys i r h = cc
  get_elem?-append (x ∷ xs) ys zero r h = h
  get_elem?-append (x ∷ xs) ys (suc i) r h = get_elem?-append xs ys i r h

  pub get_elem?-last : (xs : List A) (y : A) → get_elem? (xs ++ y ∷ []) (length xs) ≡ some y
  get_elem?-last [] y = refl
  get_elem?-last (x ∷ xs) y = get_elem?-last xs y
