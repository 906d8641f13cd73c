-- ===== src/InstrUtils/Appends.antt =====
-- The shared emitters only append.
use xob.Base.{ℕ, Bool, true, false}
use xob.Vendor.{Vendor}
use xob.Vendor.Iced.{Code}
use xob.Register.{RegClass, RegTranslation}
use xob.Register.Appends.{access_rules}
use xob.InstrUtils.Codes.{OpRrCodes, OpRiCodes}
use xob.InstrUtils.{
  when, rr_through_scratch, rr_direct, rr_for, make_rr_impl, make_rr, make_mov_rr, make_cmp_rr,
  make_mov_ri64, ri_for, make_ri, make_call,
}
use xob.Assembler.{Assembler, Asm}
use xob.Assembler.Extends.{Extends}

module _ ⦃v : Vendor⦄ {a : Assembler} where
  pub rr_through_scratch-Extends :
      (x0 : Code) (x1 : RegClass) (x2 : RegTranslation) (x3 : RegTranslation) (x4 : Bool)
      (x5 : Bool) (b : Assembler)
      → Extends a b
      → Extends a (rr_through_scratch x0 x1 x2 x3 x4 x5 b).1
  unfolding rr_through_scratch
  rr_through_scratch-Extends x0 x1 x2 x3 true true b h = search (access_rules) depth 24 fits 4000
  rr_through_scratch-Extends x0 x1 x2 x3 true false b h = search (access_rules) depth 24 fits 4000
  rr_through_scratch-Extends x0 x1 x2 x3 false true b h = search (access_rules) depth 24 fits 4000
  rr_through_scratch-Extends x0 x1 x2 x3 false false b h = search (access_rules) depth 24 fits 4000

  pub rr_direct-Extends :
      (x0 : Code) (x1 : Code) (x2 : RegTranslation) (x3 : RegTranslation) (b : Assembler)
      → Extends a b
      → Extends a (rr_direct x0 x1 x2 x3 b).1
  unfolding rr_direct
  rr_direct-Extends x0 x1 x2 x3 b h = search (access_rules) depth 24 fits 4000

  pub rr_for-Extends :
      (x0 : Code) (x1 : Code) (x2 : RegClass) (x3 : RegTranslation) (x4 : RegTranslation)
      (x5 : Bool) (x6 : Bool) (b : Assembler)
      → Extends a b
      → Extends a (rr_for x0 x1 x2 x3 x4 x5 x6 b).1
  unfolding rr_for
  rr_for-Extends x0 x1 x2 (RegTranslation.indirect o n) (RegTranslation.indirect p m) x5 x6 b h =
      search (access_rules, rr_through_scratch-Extends) depth 24 fits 4000
  rr_for-Extends x0 x1 x2 _ _ x5 x6 b h =
      search (access_rules, rr_direct-Extends) depth 24 fits 4000

  pub make_rr_impl-Extends :
      (x0 : OpRrCodes) (x1 : RegClass) (x2 : RegTranslation) (x3 : RegTranslation) (x4 : Bool)
      (x5 : Bool) (b : Assembler)
      → Extends a b
      → Extends a (make_rr_impl x0 x1 x2 x3 x4 x5 b).1
  unfolding make_rr_impl
  make_rr_impl-Extends x0 RegClass.gpr32 x2 x3 x4 x5 b h =
      search (access_rules, rr_for-Extends) depth 24 fits 4000
  make_rr_impl-Extends x0 RegClass.gpr64 x2 x3 x4 x5 b h =
      search (access_rules, rr_for-Extends) depth 24 fits 4000
  make_rr_impl-Extends x0 _ x2 x3 x4 x5 b h = search (access_rules) depth 24 fits 4000

  pub make_rr-Extends :
      (x0 : OpRrCodes) (x1 : RegClass) (x2 : RegTranslation) (x3 : RegTranslation) (b : Assembler)
      → Extends a b
      → Extends a (make_rr x0 x1 x2 x3 b).1
  unfolding make_rr
  make_rr-Extends x0 x1 x2 x3 b h = search (access_rules, make_rr_impl-Extends) depth 24 fits 4000

  pub make_mov_rr-Extends :
      (x0 : RegClass) (x1 : RegTranslation) (x2 : RegTranslation) (b : Assembler)
      → Extends a b
      → Extends a (make_mov_rr x0 x1 x2 b).1
  unfolding make_mov_rr
  make_mov_rr-Extends x0 x1 (RegTranslation.zero n) b h =
      search (access_rules, make_rr-Extends) depth 24 fits 4000
  make_mov_rr-Extends x0 x1 _ b h = search (access_rules, make_rr_impl-Extends) depth 24 fits 4000

  pub make_cmp_rr-Extends :
      (x0 : RegClass) (x1 : RegTranslation) (x2 : RegTranslation) (b : Assembler)
      → Extends a b
      → Extends a (make_cmp_rr x0 x1 x2 b).1
  unfolding make_cmp_rr
  make_cmp_rr-Extends x0 x1 x2 b h = search (access_rules, make_rr_impl-Extends) depth 24 fits 4000

  pub make_mov_ri64-Extends :
      (x0 : RegTranslation) (x1 : ℕ) (b : Assembler)
      → Extends a b
      → Extends a (make_mov_ri64 x0 x1 b).1
  unfolding make_mov_ri64
  make_mov_ri64-Extends x0 x1 b h = search (access_rules) depth 24 fits 4000

  pub ri_for-Extends :
      (x0 : Code) (x1 : RegTranslation) (x2 : ℕ) (b : Assembler)
      → Extends a b
      → Extends a (ri_for x0 x1 x2 b).1
  unfolding ri_for
  ri_for-Extends x0 x1 x2 b h = search (access_rules) depth 24 fits 4000

  pub make_ri-Extends :
      (x0 : OpRiCodes) (x1 : RegClass) (x2 : RegTranslation) (x3 : ℕ) (b : Assembler)
      → Extends a b
      → Extends a (make_ri x0 x1 x2 x3 b).1
  unfolding make_ri
  make_ri-Extends x0 RegClass.gpr32 x2 x3 b h =
      search (access_rules, ri_for-Extends) depth 24 fits 4000
  make_ri-Extends x0 RegClass.gpr64 x2 x3 b h =
      search (access_rules, ri_for-Extends) depth 24 fits 4000
  make_ri-Extends x0 _ x2 x3 b h = search (access_rules) depth 24 fits 4000

  pub make_call-Extends : (x0 : ℕ) (b : Assembler) → Extends a b → Extends a (make_call x0 b).1
  unfolding make_call
  make_call-Extends x0 b h = search (access_rules) depth 24 fits 4000

  pub when-Extends :
      (t : Bool) (m : Asm (Unit {0})) (b : Assembler)
      → Extends a b
      → Extends a (m b).1
      → Extends a (when t m b).1
  when-Extends true m b h k = k
  when-Extends false m b h k = h

pub ruleset emitter_rules = (
  access_rules, when-Extends, make_rr-Extends, make_mov_rr-Extends, make_cmp_rr-Extends,
  make_mov_ri64-Extends, make_ri-Extends, make_call-Extends,
)
