-- ===== src/LoadStore/Appends.antt =====
-- The translators of src/runner/compiler/load_store.rs only append.
use xob.Base.{ℕ, Bool, true, false, Option, none, some}
use xob.Vendor.{Vendor}
use xob.Vendor.Bad64
use xob.Vendor.Bad64.{Op, Imm, Shift, Reg, Condition}
use xob.Vendor.Iced.{Register}
use xob.Register.{RegClass, RegTranslation}
use xob.Assembler.{Assembler}
use xob.Assembler.Extends.{Extends}
use xob.Arith.Appends.Parts.{arith_rules}
use xob.Base.{List}
use xob.Assembler.Extends.{extends_rules}
use xob.LoadStore.Addressing.{
  AddrModeInfo, choose_base, load_offset, load_address, apply_mode, process_addr_mode, post_index,
  write_back, restore_base, finalize_addr_mode,
}
use xob.LoadStore.{
  LsWidth, GenFn, make_store, make_load, load_store_pair, load_store, compile_op, compile_instr,
}

module _ ⦃v : Vendor⦄ {a : Assembler} where
  pub choose_base-Extends :
      (x0 : Bool) (x1 : Bool) (x2 : RegTranslation) (x3 : List RegTranslation) (b : Assembler)
      → Extends a b
      → Extends a (choose_base x0 x1 x2 x3 b).1
  unfolding choose_base
  choose_base-Extends true true x2 x3 b h = search (arith_rules) depth 24 fits 4000
  choose_base-Extends true false x2 x3 b h = search (arith_rules) depth 24 fits 4000
  choose_base-Extends false x1 x2 x3 b h = search (arith_rules) depth 24 fits 4000

  pub load_offset-Extends :
      (x0 : Register) (x1 : RegTranslation) (x2 : Option Shift) (b : Assembler)
      → Extends a b
      → Extends a (load_offset x0 x1 x2 b).1
  unfolding load_offset
  load_offset-Extends x0 x1 (some s) b h = search (arith_rules) depth 24 fits 4000
  load_offset-Extends x0 x1 none b h = search (arith_rules) depth 24 fits 4000

  pub load_address-Extends :
      (x0 : Register) (x1 : RegTranslation) (x2 : Option (Reg × Option Shift)) (b : Assembler)
      → Extends a b
      → Extends a (load_address x0 x1 x2 b).1
  unfolding load_address
  load_address-Extends x0 x1 (some (o, s)) b h =
      search (arith_rules, load_offset-Extends) depth 24 fits 4000
  load_address-Extends x0 x1 none b h = search (arith_rules) depth 24 fits 4000

  pub apply_mode-Extends :
      (x0 : Bad64.Operand) (x1 : ℕ) (x2 : AddrModeInfo) (b : Assembler)
      → Extends a b
      → Extends a (apply_mode x0 x1 x2 b).1
  unfolding apply_mode
  apply_mode-Extends (Bad64.Operand.mem_pre_idx r i) x1 x2 b h =
      search (arith_rules) depth 24 fits 4000
  apply_mode-Extends _ x1 x2 b h = search (arith_rules) depth 24 fits 4000

  pub process_addr_mode-Extends :
      (x0 : Bad64.Operand) (x1 : Bool) (x2 : List RegTranslation) (b : Assembler)
      → Extends a b
      → Extends a (process_addr_mode x0 x1 x2 b).1
  unfolding process_addr_mode
  process_addr_mode-Extends x0 x1 x2 b h =
      search (arith_rules, choose_base-Extends, load_address-Extends, apply_mode-Extends) depth 24
        fits 4000

  pub post_index-Extends :
      (x0 : Option ℕ) (x1 : Register) (b : Assembler)
      → Extends a b
      → Extends a (post_index x0 x1 b).1
  unfolding post_index
  post_index-Extends none x1 b h = search (arith_rules) depth 24 fits 4000
  post_index-Extends (some o) x1 b h = search (arith_rules) depth 24 fits 4000

  pub write_back-Extends :
      (x0 : RegTranslation) (x1 : Bool) (x2 : Register) (b : Assembler)
      → Extends a b
      → Extends a (write_back x0 x1 x2 b).1
  unfolding write_back
  write_back-Extends (RegTranslation.indirect o n) true x2 b h =
      search (arith_rules) depth 24 fits 4000
  write_back-Extends _ _ x2 b h = search (arith_rules) depth 24 fits 4000

  pub restore_base-Extends :
      (x0 : Bool) (x1 : Register) (b : Assembler) → Extends a b → Extends a (restore_base x0 x1 b).1
  unfolding restore_base
  restore_base-Extends true x1 b h = search (arith_rules) depth 24 fits 4000
  restore_base-Extends false x1 b h = search (arith_rules) depth 24 fits 4000

  pub finalize_addr_mode-Extends :
      (x0 : AddrModeInfo) (b : Assembler) → Extends a b → Extends a (finalize_addr_mode x0 b).1
  unfolding finalize_addr_mode
  finalize_addr_mode-Extends x0 b h =
      search (arith_rules, post_index-Extends, write_back-Extends, restore_base-Extends) depth 24
        fits 4000

  pub make_store-Extends :
      (x0 : RegTranslation) (x1 : RegClass) (x2 : AddrModeInfo) (x3 : ℕ) (x4 : LsWidth)
      (b : Assembler)
      → Extends a b
      → Extends a (make_store x0 x1 x2 x3 x4 b).1
  unfolding make_store
  make_store-Extends x0 x1 x2 x3 x4 b h = search (arith_rules) depth 24 fits 4000

  pub make_load-Extends :
      (x0 : RegTranslation) (x1 : RegClass) (x2 : AddrModeInfo) (x3 : ℕ) (x4 : LsWidth)
      (b : Assembler)
      → Extends a b
      → Extends a (make_load x0 x1 x2 x3 x4 b).1
  unfolding make_load
  make_load-Extends x0 x1 x2 x3 x4 b h = search (arith_rules) depth 24 fits 4000

ruleset load_store_rules = (arith_rules, process_addr_mode-Extends, finalize_addr_mode-Extends)

module _ ⦃v : Vendor⦄ where
  -- The generator of the access appends.
  abbrev GenExtends : Assembler → GenFn → Type 0
  GenExtends a g =
      (t : RegTranslation) (c : RegClass) (info : AddrModeInfo) (o : ℕ) (w : LsWidth)
      (b : Assembler)
      → Extends a b
      → Extends a (g t c info o w b).1

  load_store-Extends :
      {a : Assembler} (i : Bad64.Instruction) (g : GenFn) (w : LsWidth)
      → GenExtends a g
      → (b : Assembler) → Extends a b
      → Extends a (load_store i g w b).1
  unfolding load_store
  load_store-Extends i g w k b h = search (load_store_rules, k) depth 24 fits 4000

  load_store_pair-Extends :
      {a : Assembler} (i : Bad64.Instruction) (g : GenFn)
      → GenExtends a g
      → (b : Assembler) → Extends a b
      → Extends a (load_store_pair i g b).1
  unfolding load_store_pair
  load_store_pair-Extends i g k b h = search (load_store_rules, k) depth 24 fits 4000

module _ ⦃v : Vendor⦄ {a : Assembler} where
  store-Extends :
      (i : Bad64.Instruction) (w : LsWidth) (b : Assembler)
      → Extends a b
      → Extends a (load_store i make_store w b).1
  store-Extends i w b h = load_store-Extends i make_store w make_store-Extends b h

  load-Extends :
      (i : Bad64.Instruction) (w : LsWidth) (b : Assembler)
      → Extends a b
      → Extends a (load_store i make_load w b).1
  load-Extends i w b h = load_store-Extends i make_load w make_load-Extends b h

  store_pair-Extends :
      (i : Bad64.Instruction) (b : Assembler)
      → Extends a b
      → Extends a (load_store_pair i make_store b).1
  store_pair-Extends i b h = load_store_pair-Extends i make_store make_store-Extends b h

  load_pair-Extends :
      (i : Bad64.Instruction) (b : Assembler)
      → Extends a b
      → Extends a (load_store_pair i make_load b).1
  load_pair-Extends i b h = load_store_pair-Extends i make_load make_load-Extends b h

ruleset access_rules =
    (extends_rules, store-Extends, load-Extends, store_pair-Extends, load_pair-Extends)

module _ ⦃v : Vendor⦄ {a : Assembler} where
  compile_op-Extends :
      (x0 : Op) (x1 : Bad64.Instruction) (b : Assembler)
      → Extends a b
      → Extends a (compile_op x0 x1 b).1
  unfolding compile_op
  compile_op-Extends Op.stp x1 b h = search access_rules
  compile_op-Extends _ x1 b h = search access_rules

  -- Whatever the instruction and however it ends, its code stands behind what was there.
  pub compile_instr-Extends :
      (i : Bad64.Instruction) (b : Assembler) → Extends a b → Extends a (compile_instr i b).1
  unfolding compile_instr
  compile_instr-Extends i b h = compile_op-Extends i.op i b h
