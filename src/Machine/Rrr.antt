-- ===== src/Machine/Rrr.antt =====
-- The two instructions that `make_rrr` emits where the destination is not the first operand.
pub mod Wide
pub mod Narrow
use xob.Base.{ℕ, ◌≡◌, ◌≢◌, false, ◌==◌, arith}
use xob.Vendor.Iced.{Code}
use xob.Register.Allocation.{Place, place_eq, place_eq_iff}
use xob.Machine.{Places, Isa, Width, Acts, copying, low, update, scratch_place}

-- The moves that copy their operand.
pub record MovesOperand (isa : Isa) : Type 0 where
  pub r64 : Acts isa Code.mov_r64_rm64 Width.wide copying
  pub r32 : Acts isa Code.mov_r32_rm32 Width.narrow copying

-- What the second instruction reads: a destination register has been overwritten by then, the scratch
-- register of a destination slot is no operand.
abbrev pub second : Width → Places → Place → Place → Place → ℕ
second w s (Place.hardware i) p q = update s (Place.hardware i) (low w (s p)) q
second w s (Place.slot o) p q = s q

pub not_scratch : (k : ℕ) → scratch_place ≢ Place.hardware k → (0 == k) ≡ false
not_scratch k ne = ground (arith, place_eq_iff scratch_place (Place.hardware k))
