-- ===== src/InstrUtils/AltReg.antt =====
-- The choice of a spare register.
use xob.Base.{
  ◌≤◌, ◌≡◌, refl, arith, Bool, true, false, ◌||◌, ◌&&◌, List, [], ◌∷◌, length, Bool-cases, inl, inr,
  ◌==◌,
}
use xob.Outcome.{ok}
use xob.Vendor.Iced.{Register, r9, r10, r14}
use xob.Register.{RegTranslation, translation_eq}
use xob.InstrUtils.{blocked, first_free, get_alt_reg}

-- A blocker takes one of R10, R9 and R14 at most.
one_blocked :
    (b : RegTranslation)
    → ((translation_eq b (RegTranslation.direct r10) && translation_eq b (RegTranslation.direct r9))
        ≡ false)
      × ((translation_eq b (RegTranslation.direct r10)
            && translation_eq b (RegTranslation.direct r14))
          ≡ false)
      × ((translation_eq b (RegTranslation.direct r9)
            && translation_eq b (RegTranslation.direct r14))
          ≡ false)
one_blocked (RegTranslation.direct (Register.r64 n)) = (ground arith, ground arith, ground arith)
one_blocked (RegTranslation.direct _) = (refl, refl, refl)
one_blocked (RegTranslation.indirect o c) = (refl, refl, refl)
one_blocked (RegTranslation.zero c) = (refl, refl, refl)

abbrev pub spare : Register → Bool
spare (Register.r64 n) = n == 10 || n == 9 || n == 14
spare _ = false

-- Two blockers leave one of the three.
two_blocked :
    (bs : List RegTranslation)
    → length bs ≤ 2
    → blocked bs r10 ≡ true
    → blocked bs r9 ≡ true
    → blocked bs r14 ≡ false
unfolding blocked
two_blocked [] h e e' = cc
two_blocked (b ∷ []) h e e' = let t = one_blocked b in ground (arith, t)
two_blocked (b ∷ c ∷ []) h e e' =
    let t = one_blocked b in let t' = one_blocked c in ground (arith, t, t')
two_blocked (b ∷ c ∷ d ∷ bs) h e e' = absurd (omega arith)

-- With at most two blockers, a spare register is found, it is one of R10, R9 and R14, and no blocker
-- is that register.
pub get_alt_reg-IsFree :
    (blockers : List RegTranslation)
    → length blockers ≤ 2
    → (r : Register) × (get_alt_reg blockers ≡ ok r)
      × (blocked blockers r ≡ false)
      × (spare r ≡ true)
unfolding get_alt_reg first_free
get_alt_reg-IsFree bs h = elim (Bool-cases (blocked bs r10)) [
  | inr free ↦ (r10, rw free refl, free, refl)
  | inl taken ↦ elim (Bool-cases (blocked bs r9)) [
    | inr free ↦ (r9, rw (taken, free) refl, free, refl)
    | inl taken' ↦
        (let free = two_blocked bs h taken taken' in
          (r14, rw (taken, taken', free) refl, free, refl))
  ]
]
