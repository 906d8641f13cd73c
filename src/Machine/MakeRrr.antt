-- ===== src/Machine/MakeRrr.antt =====
-- `make_rrr` on any places: what it computes, and where its second operand is lost.
use mathlib.Core.Path.{subst}
use xob.Base.{sym, ap, ◌∙◌, ℕ, Bool, true, false, ◌≡◌, ◌≢◌, ◌⊎◌, inl, inr, refl, Bool-cases, arith}
use xob.Vendor.{Vendor}
use xob.Register.{RegClass, translation_eq}
use xob.Register.Allocation.{Place, place_eq, place_eq_iff}
use xob.Arith.Rrr.{make_rrr, rrr_codes}
use xob.InstrUtils.Codes.{OpRrCodes}
use xob.Machine.{
  State, Places, Isa, Operation, Width, low, merged, new_value, new_flags, width_of, Accepting,
  Computes, Denotes, is_gpr, translation, scratch_place,
}
use xob.Machine.Frame.{update_ne, update_self, mod_mod}
use xob.InstrUtils.{make_rr}
use xob.Assembler.{Asm}
use xob.Machine.Rr.{make_rr-Computes}
use xob.Machine.Rrr.{MovesOperand, second}
use xob.Machine.Rrr.Wide.{rrr64}
use xob.Machine.Rrr.Narrow.{rrr32}

translation-place_eq :
    (c : RegClass) (d p : Place)
    → is_gpr c ≡ true
    → translation_eq (translation c d) (translation c p) ≡ place_eq d p
translation-place_eq RegClass.gpr64 (Place.hardware i) (Place.hardware j) h = refl
translation-place_eq RegClass.gpr64 (Place.hardware i) (Place.slot j) h = refl
translation-place_eq RegClass.gpr64 (Place.slot i) (Place.hardware j) h = refl
translation-place_eq RegClass.gpr64 (Place.slot i) (Place.slot j) h = ground arith
translation-place_eq RegClass.gpr32 (Place.hardware i) (Place.hardware j) h = refl
translation-place_eq RegClass.gpr32 (Place.hardware i) (Place.slot j) h = refl
translation-place_eq RegClass.gpr32 (Place.slot i) (Place.hardware j) h = refl
translation-place_eq RegClass.gpr32 (Place.slot i) (Place.slot j) h = ground arith
translation-place_eq _ d p h = cc

low-low : (w : Width) (n : ℕ) → low w (low w n) ≡ low w n
low-low Width.wide n = refl
low-low Width.narrow n = mod_mod n

-- An overwritten register that held the first operand anyway still holds it.
second_same : (w : Width) (s : Places) (d q : Place) → low w (second w s d d q) ≡ low w (s q)
second_same w s (Place.hardware i) q = elim (Bool-cases (place_eq (Place.hardware i) q)) [
  | inl e ↦ rw (e, ← (place_eq_iff (Place.hardware i) q).0 e) (low-low w (s (Place.hardware i)))
  | inr e ↦ rw e refl
]
second_same w s (Place.slot o) q = refl

module _ ⦃v : Vendor⦄ (acc : Accepting v) {isa : Isa} {codes : OpRrCodes} {op : Operation}
    (ops : Denotes isa codes op) where
  -- `op` at a class, with its second operand, as it is read, given.
  abbrev Performs : Asm (Unit {0}) → RegClass → Place → Place → State → ℕ → Type 0
  Performs m c d p s b =
      Computes isa m s d
        (merged (width_of c) d (s.places d)
          (op.result (width_of c) (low (width_of c) (s.places p)) b))
        (op.flags (width_of c) s.flags (low (width_of c) (s.places p)) b)

  rrr_codes-Computes :
      (c : RegClass) (d p q : Place) (s : State)
      → is_gpr c ≡ true
      → MovesOperand isa
      → scratch_place ≢ q
      → Performs
          (rrr_codes codes (translation c d) (translation c p) (translation c q) c)
          c
          d
          p
          s
          (low (width_of c) (second (width_of c) s.places d p q))
  rrr_codes-Computes RegClass.gpr64 d p q s h mov ne = rrr64 acc ops d p q s mov.r64 ne
  rrr_codes-Computes RegClass.gpr32 d p q s h mov ne = rrr32 acc ops d p q s mov.r32 ne
  rrr_codes-Computes _ d p q s h mov ne = cc

  pub make_rrr-second :
      (c : RegClass) (d p q : Place) (s : State)
      → is_gpr c ≡ true
      → MovesOperand isa
      → scratch_place ≢ q
      → Performs
          (make_rrr codes (translation c d) (translation c p) (translation c q) c)
          c
          d
          p
          s
          (low (width_of c) (second (width_of c) s.places d p q))
  unfolding make_rrr
  make_rrr-second c d p q s h mov ne = elim (Bool-cases (place_eq d p)) [
    | inl e ↦
        rw (translation-place_eq c d p h, e, ← (place_eq_iff d p).0 e)
          (subst (Performs (make_rr codes c (translation c d) (translation c q)) c d d s)
            (sym (second_same (width_of c) s.places d q)) (make_rr-Computes acc ops c d q s h))
    | inr e ↦ rw (translation-place_eq c d p h, e) (rrr_codes-Computes c d p q s h mov ne)
  ]

abbrev pub is_slot : Place → Bool
is_slot (Place.slot _) = true
is_slot (Place.hardware _) = false

-- The second operand survives the move of the first into the destination.
abbrev pub Undisturbed : Place → Place → Place → Type 0
Undisturbed d p q = (is_slot d ≡ true) ⊎ ((d ≢ q) ⊎ (d ≡ p))

second-Undisturbed :
    (w : Width) (s : Places) (d p q : Place)
    → Undisturbed d p q
    → low w (second w s d p q) ≡ low w (s q)
second-Undisturbed w s (Place.slot o) p q u = refl
second-Undisturbed w s (Place.hardware i) p q (inl e) = cc
second-Undisturbed w s (Place.hardware i) p q (inr (inl ne)) =
    ap (low w) (update_ne s (Place.hardware i) q (low w (s p)) ne)
second-Undisturbed w s (Place.hardware i) p q (inr (inr e)) =
    rw (← e) (second_same w s (Place.hardware i) q)

module _ ⦃v : Vendor⦄ (acc : Accepting v) {isa : Isa} {codes : OpRrCodes} {op : Operation}
    (ops : Denotes isa codes op) (mov : MovesOperand isa) where
  -- Where iced refuses nothing: for a 32-bit or 64-bit operation on places, the second of which is not
  -- the scratch register and survives the move of the first into the destination (the destination is
  -- a slot, is not the second place, or is the first), the code of `make_rrr` leaves the result of the
  -- operation on the two source places in the destination, and the flags that the operation leaves, and
  -- changes no other place but the scratch register. At 32 bits the low halves of the sources are read;
  -- a register is cleared above the result, and a slot keeps its upper half.
  pub make_rrr-Computes :
      (c : RegClass) (d p q : Place) (s : State)
      → is_gpr c ≡ true
      → scratch_place ≢ q
      → Undisturbed d p q
      → Computes isa
          (make_rrr codes (translation c d) (translation c p) (translation c q) c)
          s
          d
          (new_value op (width_of c) d (s.places d) (s.places p) (s.places q))
          (new_flags op (width_of c) s.flags (s.places p) (s.places q))
  make_rrr-Computes c d p q s h ne u =
      subst
        (Performs acc ops (make_rrr codes (translation c d) (translation c p) (translation c q) c) c
          d p s)
        (second-Undisturbed (width_of c) s.places d p q u)
        (make_rrr-second acc ops c d p q s h mov ne)

  -- Where the destination is a hardware register and also the second operand, and not the scratch
  -- register, the code of `make_rrr` for a 32-bit or 64-bit operation applies the operation to the
  -- first operand twice.
  pub make_rrr-clobbers :
      (c : RegClass) (i : ℕ) (p : Place) (s : State)
      → is_gpr c ≡ true
      → scratch_place ≢ Place.hardware i
      → Computes isa
          (make_rrr codes
            (translation c (Place.hardware i))
            (translation c p)
            (translation c (Place.hardware i))
            c)
          s
          (Place.hardware i)
          (new_value op
            (width_of c)
            (Place.hardware i)
            (s.places (Place.hardware i))
            (s.places p)
            (s.places p))
          (new_flags op (width_of c) s.flags (s.places p) (s.places p))
  make_rrr-clobbers c i p s h ne =
      subst
        (Performs acc ops
          (make_rrr codes (translation c (Place.hardware i)) (translation c p)
            (translation c (Place.hardware i)) c)
          c (Place.hardware i) p s)
        (ap (low (width_of c))
            (update_self s.places (Place.hardware i) (low (width_of c) (s.places p)))
          ∙ low-low (width_of c) (s.places p))
        (make_rrr-second acc ops c (Place.hardware i) p (Place.hardware i) s h mov ne)
