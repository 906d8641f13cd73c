-- ===== src/Machine/Frame.antt =====
-- Writes to one place leave the others as they are.
use xob.Base.{ℕ, ◌%◌, ◌^◌, ◌≡◌, ◌≢◌, refl, arith}
use xob.Register.Allocation.{Place, place_eq_iff}
use xob.Machine.{Places, update, Leaves, scratch_place}

pub update-Leaves : (s : Places) (p : Place) (n : ℕ) → Leaves s (update s p n) p n
update-Leaves s p n = (rw ((place_eq_iff p p).1 refl), λ q ne _. ground (arith, place_eq_iff p q))

-- Two writes to one place.
pub twice-Leaves : (s : Places) (p : Place) (x n : ℕ) → Leaves s (update (update s p x) p n) p n
twice-Leaves s p x n = (rw ((place_eq_iff p p).1 refl), λ q ne _. ground (arith, place_eq_iff p q))

-- A value built in the scratch register and stored.
pub scratch-Leaves :
    (s : Places) (p : Place) (x n : ℕ)
    → Leaves s (update (update (update s scratch_place x) scratch_place n) p n) p n
scratch-Leaves s p x n = (
  rw ((place_eq_iff p p).1 refl),
  λ q ne ne'. ground (arith, place_eq_iff p q, place_eq_iff scratch_place q),
)

-- The same, where a part of the value is stored.
pub stored-Leaves :
    (s : Places) (p : Place) (x y n : ℕ)
    → Leaves s (update (update (update s scratch_place x) scratch_place y) p n) p n
stored-Leaves s p x y n = (
  rw ((place_eq_iff p p).1 refl),
  λ q ne ne'. ground (arith, place_eq_iff p q, place_eq_iff scratch_place q),
)

pub update_ne : (s : Places) (p q : Place) (n : ℕ) → p ≢ q → update s p n q ≡ s q
update_ne s p q n ne = ground (arith, place_eq_iff p q)

pub update_self : (s : Places) (p : Place) (n : ℕ) → update s p n p ≡ n
update_self s p n = rw ((place_eq_iff p p).1 refl)

-- A value loaded into the scratch register, and a part of it stored.
pub loaded-Leaves :
    (s : Places) (p : Place) (x n : ℕ) → Leaves s (update (update s scratch_place x) p n) p n
loaded-Leaves s p x n = (
  rw ((place_eq_iff p p).1 refl),
  λ q ne ne'. ground (arith, place_eq_iff p q, place_eq_iff scratch_place q),
)

abbrev pub low32 : ℕ → ℕ
low32 n = n % 2 ^ 32

-- The low half of a low half.
pub mod_mod : (n : ℕ) → n % 2 ^ 32 % 2 ^ 32 ≡ n % 2 ^ 32
mod_mod n = omega arith
