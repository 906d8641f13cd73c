-- ===== src/Wrapped/Placed.antt =====
-- The pool of compiled code under src/wrapped.rs: the code of a proxy keeps it in order.
use mathlib.Core.Path.{subst}
use xob.Base.{
  ℕ, ◌+◌, ◌%◌, ◌^◌, ◌≡◌, sym, ap, ◌∙◌, List, [], Option, none, some, inl, inr, Bool-cases,
  Option-cases, ◌==◌,
}
use xob.Outcome.{Outcome, ok, err, panic, ok-bind, ok-injective}
use xob.Memory.{Memory, Name, get_name}
use xob.Vendor.{Vendor}
use xob.Vendor.Iced.{Call}
use xob.ExecPool.{ExecPool, Callbacks, CompiledChunk, get_chunk}
use xob.Assembler.{expect}
use xob.Finalize.{Platform, finalize_ass}
use xob.Finalize.Placement.{Fresh, Small}
use xob.Runner.{alloc_code, new_assembler}
use xob.Runner.Cache.{WellPlaced, Added, finalize_ass-lem}
use xob.Runner.FromExec.{Apart}
use xob.Wrapped.{
  WrappedLib, create_lib_proxy, symbol_address, is_defined, found_symbol, lookup_symbol, get_symbol,
  st_info, st_value, stt_func, stt_gnu_ifunc,
}
use xob.Wrapped.ElfLookup.{lookup}
use xob.Wrapped.Overrides.{Host}
use xob.Wrapped.Proxy.{lib_proxy}

-- Code that joins no chunk.
Added-WellPlaced :
    (pool pool' : ExecPool) (c : CompiledChunk)
    → WellPlaced pool
    → Added pool pool' c
    → WellPlaced pool'
Added-WellPlaced pool pool' c w added = record {
  regions = added.regions;
  apart = subst Apart (sym added.same_map) w.apart;
  stored =
      λ k c' h. added.keeps c' (w.stored k c' (ap (λ m. get_chunk m k) (sym added.same_map) ∙ h));
}

ok-expect : {A : Type 0} (o : Outcome A) (a : A) → expect o ≡ ok a → o ≡ ok a
ok-expect (ok x) a h = h
ok-expect (err e) a h = cc
ok-expect panic a h = cc

module _ ⦃v : Vendor⦄ ⦃cb : Callbacks⦄ where
  -- The calls that make the proxy of a function.
  abbrev pub proxy_calls : ℕ → List Call
  proxy_calls target = (lib_proxy target new_assembler).1.calls

module _ ⦃v : Vendor⦄ ⦃cb : Callbacks⦄ ⦃p : Platform⦄ (fresh : Fresh p)
    (small : (target : ℕ) → Small p (proxy_calls target)) where
  alloc_code-WellPlaced :
      (pool pool' : ExecPool) (instrs : List Call) (addr : ℕ)
      → WellPlaced pool
      → Small p instrs
      → alloc_code pool instrs ≡ ok (pool', addr)
      → WellPlaced pool'
  unfolding alloc_code
  alloc_code-WellPlaced pool pool' instrs addr w fits e =
      let ((done, target, enc), e1, e2) = ok-bind (finalize_ass pool instrs) _ (pool', addr) e in
      let added = finalize_ass-lem fresh pool done instrs target enc [] w.regions fits e1 in
      subst (λ (r : ExecPool × ℕ). WellPlaced r.0) (ok-injective e2)
        (Added-WellPlaced pool done _ w added)

  create_lib_proxy-WellPlaced :
      (pool pool' : ExecPool) (target addr : ℕ)
      → WellPlaced pool
      → create_lib_proxy pool target ≡ ok (pool', addr)
      → WellPlaced pool'
  unfolding create_lib_proxy
  create_lib_proxy-WellPlaced pool pool' target addr w e =
      let (done, e1, e2) = ok-bind (lib_proxy target new_assembler).0 _ (pool', addr) e in
      alloc_code-WellPlaced pool pool' (proxy_calls target) addr w (small target) e2

  module _ ⦃h : Host⦄ where
    symbol_address-WellPlaced :
        (pool pool' : ExecPool) (ty addr at : ℕ)
        → WellPlaced pool
        → symbol_address pool ty addr ≡ ok (pool', at)
        → WellPlaced pool'
    unfolding symbol_address
    symbol_address-WellPlaced pool pool' ty addr at w e = elim (Bool-cases (ty == stt_func)) [
      | inl func ↦
          create_lib_proxy-WellPlaced pool pool' addr at w
            (ok-expect (create_lib_proxy pool addr) (pool', at) (rw func at e))
      | inr other ↦ elim (Bool-cases (ty == stt_gnu_ifunc)) [
        | inl indirect ↦ create_lib_proxy-WellPlaced pool pool' (h.run_resolver addr) at w (
            ok-expect (create_lib_proxy pool (h.run_resolver addr)) (pool', at)
              (rw (other, indirect) at e))
        | inr variable ↦
            subst (λ (r : ExecPool × ℕ). WellPlaced r.0) (ok-injective (rw (other, variable) at e))
              w
      ]
    ]

    found_symbol-WellPlaced :
        (m : Memory) (pool pool' : ExecPool) (lib : WrappedLib) (sym_at found : Option ℕ)
        → WellPlaced pool
        → found_symbol m pool lib sym_at ≡ ok (pool', found)
        → WellPlaced pool'
    unfolding found_symbol
    found_symbol-WellPlaced m pool pool' lib none found w e =
        subst (λ (r : ExecPool × Option ℕ). WellPlaced r.0) (ok-injective e) w
    found_symbol-WellPlaced m pool pool' lib (some at) found w e =
        elim (Bool-cases (is_defined m at)) [
          | inl defined ↦
              (let ((done, addr), e1, e2) =
                  ok-bind
                    (symbol_address pool (st_info m at % 16)
                      ((st_value m at + lib.base_addr) % 2 ^ 64))
                    _ (pool', found) (rw defined at e) in
                subst (λ (r : ExecPool × Option ℕ). WellPlaced r.0) (ok-injective e2)
                  (symbol_address-WellPlaced pool done (st_info m at % 16)
                    ((st_value m at + lib.base_addr) % 2 ^ 64) addr w e1))
          | inr undefined ↦
              subst (λ (r : ExecPool × Option ℕ). WellPlaced r.0) (ok-injective (rw undefined at e))
                w
        ]

    lookup_symbol-WellPlaced :
        (fuel : ℕ) (m : Memory) (pool pool' : ExecPool) (lib : WrappedLib) (name : Name)
        (found : Option ℕ)
        → WellPlaced pool
        → lookup_symbol fuel m pool lib name ≡ ok (pool', found)
        → WellPlaced pool'
    unfolding lookup_symbol
    lookup_symbol-WellPlaced fuel m pool pool' lib name found w e =
        elim (Bool-cases (h.dlsym lib.handle name == 0)) [
          | inl null ↦
              subst (λ (r : ExecPool × Option ℕ). WellPlaced r.0) (ok-injective (rw null at e)) w
          | inr there ↦
              (let (sym_at, e1, e2) =
                  ok-bind (lookup h.gnu_hash fuel m lib.symbol_finder name) _ (pool', found)
                    (rw there at e) in
                found_symbol-WellPlaced m pool pool' lib sym_at found w e2)
        ]

    pub get_symbol-WellPlaced :
        (fuel : ℕ) (m : Memory) (pool pool' : ExecPool) (lib : WrappedLib) (name : Name)
        (found : Option ℕ)
        → WellPlaced pool
        → get_symbol fuel m pool lib name ≡ ok (pool', found)
        → WellPlaced pool'
    unfolding get_symbol
    get_symbol-WellPlaced fuel m pool pool' lib name found w e =
        elim (Option-cases (get_name lib.overrides name)) [
          | inl absent ↦
              lookup_symbol-WellPlaced fuel m pool pool' lib name found w
                (rw (absent, get_symbol) at e)
          | inr (ov, overridden) ↦
              subst (λ (r : ExecPool × Option ℕ). WellPlaced r.0)
                (ok-injective (rw (overridden, get_symbol) at e)) w
        ]
