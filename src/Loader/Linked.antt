-- ===== src/Loader/Linked.antt =====
-- The pool of compiled code under the second half of src/loader.rs: symbols and relocations.
use mathlib.Core.Path.{subst}
use xob.Base.{
  ℕ, ◌≡◌, refl, ◌||◌, List, [], ◌∷◌, Option, none, some, inl, inr, Bool-cases, Option-cases, ◌==◌,
}
use xob.Outcome.{Outcome, ok, unwrap, ok-bind, ok-injective}
use xob.Memory.{Memory, Name, NameMap, get_name}
use xob.Vendor.{Vendor}
use xob.ExecPool.{ExecPool, Callbacks}
use xob.Finalize.{Platform}
use xob.Finalize.Placement.{Fresh, Small}
use xob.Runner.Cache.{WellPlaced}
use xob.Wrapped
use xob.Wrapped.{WrappedLib}
use xob.Wrapped.Overrides.{Host}
use xob.Wrapped.Placed.{proxy_calls, get_symbol-WellPlaced}
use xob.Loader.Symbols.{Loading, first_found, search_libs, located, locate, get_symbol}
use xob.Loader.Relocations.{
  Relocation, RelocationSymbol, symbol_value, resolve_symbol, bind_symbol, resolve_as,
  resolve_relocation, resolve_relocations, r_aarch64_relative, r_aarch64_glob_dat,
  r_aarch64_jump_slot,
}
use xob.Loader.Placed.{Held, Held-trans}

first_found-WellPlaced :
    (done pool' : ExecPool) (there found : Option ℕ) (rest : Outcome (ExecPool × Option ℕ))
    → WellPlaced done
    → (rest ≡ ok (pool', found) → WellPlaced pool')
    → first_found done there rest ≡ ok (pool', found)
    → WellPlaced pool'
unfolding first_found
first_found-WellPlaced done pool' (some addr) found rest w next e =
    subst (λ (r : ExecPool × Option ℕ). WellPlaced r.0) (ok-injective e) w
first_found-WellPlaced done pool' none found rest w next e = next e

module _ ⦃v : Vendor⦄ ⦃cb : Callbacks⦄ ⦃p : Platform⦄ (fresh : Fresh p)
    (small : (target : ℕ) → Small p (proxy_calls target)) ⦃h : Host⦄ (fuel : ℕ) where
  search_libs-WellPlaced :
      (m : Memory) (pool pool' : ExecPool) (libs : List WrappedLib) (name : Name) (found : Option ℕ)
      → WellPlaced pool
      → search_libs fuel m pool libs name ≡ ok (pool', found)
      → WellPlaced pool'
  unfolding search_libs
  search_libs-WellPlaced m pool pool' [] name found w e =
      subst (λ (r : ExecPool × Option ℕ). WellPlaced r.0) (ok-injective e) w
  search_libs-WellPlaced m pool pool' (lib ∷ libs) name found w e =
      let ((done, there), e1, e2) =
        ok-bind (Wrapped.get_symbol fuel m pool lib name) _ (pool', found) e in
      let w' = get_symbol-WellPlaced fresh small fuel m pool done lib name there w e1 in
      first_found-WellPlaced done pool' there found _ w'
        (λ rest. search_libs-WellPlaced m done pool' libs name found w' rest) e2

  located-Held :
      (s s' : Loading) (name : Name) (pool : ExecPool) (found : Option ℕ) (addr : ℕ)
      → WellPlaced pool
      → located s name pool found ≡ ok (s', addr)
      → Held s s'
  unfolding located
  located-Held s s' name pool none addr w e = cc
  located-Held s s' name pool (some a) addr w e =
      subst (λ (r : Loading × ℕ). Held s r.0) (ok-injective e) (w, refl)

  get_symbol-Held :
      (s s' : Loading) (name : Name) (addr : ℕ)
      → WellPlaced s.pool
      → get_symbol fuel s name ≡ ok (s', addr)
      → Held s s'
  unfolding get_symbol locate
  get_symbol-Held s s' name addr w e =
      elim (Option-cases (get_name s.objects.global_symbols name)) [
        | inl absent ↦
            (let ((done, found), e1, e2) =
                ok-bind (search_libs fuel s.memory s.pool s.objects.wrapped_libs name) _ (s', addr)
                  (rw (absent, get_symbol) at e) in
              located-Held s s' name done found addr
                (search_libs-WellPlaced s.memory s.pool done s.objects.wrapped_libs name found w e1)
                e2)
        | inr (a, there) ↦
            subst (λ (r : Loading × ℕ). Held s r.0) (ok-injective (rw (there, get_symbol) at e))
              (w, refl)
      ]

  module _ (symbol_by_index : ℕ → Option RelocationSymbol) (base_addr : ℕ) (locals : NameMap) where
    symbol_value-Held :
        (s s' : Loading) (name : Name) (known : Option ℕ) (val : ℕ)
        → WellPlaced s.pool
        → symbol_value fuel symbol_by_index base_addr locals s name known ≡ ok (s', val)
        → Held s s'
    unfolding symbol_value
    symbol_value-Held s s' name (some a) val w e =
        subst (λ (r : Loading × ℕ). Held s r.0) (ok-injective e) (w, refl)
    symbol_value-Held s s' name none val w e = get_symbol-Held s s' name val w e

    resolve_symbol-Held :
        (s s' : Loading) (addr : ℕ) (symbol : RelocationSymbol)
        → WellPlaced s.pool
        → resolve_symbol fuel symbol_by_index base_addr locals s addr symbol ≡ ok s'
        → Held s s'
    unfolding resolve_symbol
    resolve_symbol-Held s s' addr symbol w e = elim (Bool-cases symbol.is_weak) [
      | inl weak ↦ subst (λ (t : Loading). Held s t) (ok-injective (rw weak at e)) (w, refl)
      | inr strong ↦
          (let ((t, val), e1, e2) =
              ok-bind
                (symbol_value fuel symbol_by_index base_addr locals s symbol.name
                  (get_name locals symbol.name))
                _ s' (rw strong at e) in
            subst (λ (t' : Loading). Held s t') (ok-injective e2)
              (symbol_value-Held s t symbol.name (get_name locals symbol.name) val w e1))
    ]

    resolve_as-Held :
        (s s' : Loading) (r : Relocation) (ty : ℕ)
        → WellPlaced s.pool
        → resolve_as fuel symbol_by_index base_addr locals s r ty ≡ ok s'
        → Held s s'
    unfolding resolve_as bind_symbol
    resolve_as-Held s s' r ty w e = elim (Bool-cases (ty == r_aarch64_relative)) [
      | inl relative ↦ subst (λ (t : Loading). Held s t) (ok-injective (rw relative at e)) (w, refl)
      | inr other ↦ elim (Bool-cases (ty == r_aarch64_glob_dat || ty == r_aarch64_jump_slot)) [
        | inl binds ↦
            (let (idx, e1, e2) = ok-bind (unwrap r.target) _ s' (rw (other, binds) at e) in
              let (symbol, e3, e4) = ok-bind (unwrap (symbol_by_index idx)) _ s' e2 in
              resolve_symbol-Held s s' r.addr symbol w e4)
        | inr unknown ↦ let stuck = rw (other, unknown) at e in cc
      ]
    ]

    pub resolve_relocations-Held :
        (s s' : Loading) (relocs : List Relocation)
        → WellPlaced s.pool
        → resolve_relocations fuel symbol_by_index base_addr locals s relocs ≡ ok s'
        → Held s s'
    unfolding resolve_relocations resolve_relocation
    resolve_relocations-Held s s' [] w e =
        subst (λ (t : Loading). Held s t) (ok-injective e) (w, refl)
    resolve_relocations-Held s s' (r ∷ rs) w e =
        let (t, e1, e2) =
          ok-bind (resolve_relocation fuel symbol_by_index base_addr locals s r) _ s' e in
        let (ty, e3, e4) = ok-bind (unwrap r.r_type) _ t e1 in
        let held = resolve_as-Held s t r ty w e4 in
        Held-trans s t s' held (resolve_relocations-Held t s' rs held.0 e2)
