-- ===== src/Register/Appends.antt =====
-- The loads and stores around an instruction only append.
use xob.Base.{ℕ}
use xob.Vendor.{Vendor}
use xob.Register.{RegClass, RegTranslation}
use xob.Register.Access.{pre_read, post_write}
use xob.InstrUtils.Indirect.{load_indirect, store_indirect}
use xob.Assembler.{Assembler}
use xob.Assembler.Extends.{Extends, extends_rules}

module _ ⦃v : Vendor⦄ {a : Assembler} where
  pub load_indirect-Extends :
      (x0 : RegClass) (x1 : ℕ) (b : Assembler) → Extends a b → Extends a (load_indirect x0 x1 b).1
  unfolding load_indirect
  load_indirect-Extends RegClass.gpr32 x1 b h = search (extends_rules) depth 24 fits 4000
  load_indirect-Extends _ x1 b h = search (extends_rules) depth 24 fits 4000

  pub store_indirect-Extends :
      (x0 : RegClass) (x1 : ℕ) (b : Assembler) → Extends a b → Extends a (store_indirect x0 x1 b).1
  unfolding store_indirect
  store_indirect-Extends RegClass.gpr32 x1 b h = search (extends_rules) depth 24 fits 4000
  store_indirect-Extends _ x1 b h = search (extends_rules) depth 24 fits 4000

  pub pre_read-Extends :
      (x0 : RegTranslation) (x1 : RegClass) (b : Assembler)
      → Extends a b
      → Extends a (pre_read x0 x1 b).1
  unfolding pre_read
  pre_read-Extends (RegTranslation.direct r) x1 b h = search (extends_rules) depth 24 fits 4000
  pre_read-Extends (RegTranslation.indirect o n) x1 b h =
      search (extends_rules, load_indirect-Extends) depth 24 fits 4000
  pre_read-Extends (RegTranslation.zero n) x1 b h = search (extends_rules) depth 24 fits 4000

  pub post_write-Extends :
      (x0 : RegTranslation) (x1 : RegClass) (b : Assembler)
      → Extends a b
      → Extends a (post_write x0 x1 b).1
  unfolding post_write
  post_write-Extends (RegTranslation.direct r) x1 b h = search (extends_rules) depth 24 fits 4000
  post_write-Extends (RegTranslation.indirect o n) x1 b h =
      search (extends_rules, store_indirect-Extends) depth 24 fits 4000
  post_write-Extends (RegTranslation.zero n) x1 b h = search (extends_rules) depth 24 fits 4000

pub ruleset access_rules = (extends_rules, pre_read-Extends, post_write-Extends)
