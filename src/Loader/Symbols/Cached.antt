-- ===== src/Loader/Symbols/Cached.antt =====
-- `ObjectPool::get_symbol` of src/loader.rs: a symbol keeps the address that it was first given.
use mathlib.Core.Path.{subst}
use xob.Base.{ℕ, ◌≡◌, refl, sym, ap, ◌∙◌, Option, none, some, Bool-cases, Option-cases, inl, inr}
use xob.Outcome.{ok, ok-bind, ok-injective}
use xob.Memory.{
  Name, NameMap, get_name, insert_name, same_name, same_name_refl, same_name_eq,
  get_name-insert_name,
}
use xob.Vendor.{Vendor}
use xob.ExecPool.{ExecPool, Callbacks}
use xob.Finalize.{Platform}
use xob.Wrapped.Overrides.{Host}
use xob.Loader.Symbols.{Loading, remember, search_libs, located, locate, get_symbol}

-- Every symbol of `s` has the same address in `s'`, and memory outside the regions for compiled code
-- is as it was.
pub record Keeps (s s' : Loading) : Type 0 where
  pub same_memory : s'.memory ≡ s.memory
  pub kept :
      (name : Name) (addr : ℕ)
      → get_name s.objects.global_symbols name ≡ some addr
      → get_name s'.objects.global_symbols name ≡ some addr

get_name-fresh :
    (entries : NameMap) (key name : Name) (value addr : ℕ)
    → get_name entries key ≡ none
    → get_name entries name ≡ some addr
    → get_name (insert_name entries key value) name ≡ some addr
get_name-fresh entries key name value addr absent there = elim (Bool-cases (same_name key name)) [
  | inl same ↦
      let clash =
        subst (λ (n : Name). get_name entries n ≡ none) (same_name_eq key name same) absent in
      cc
  | inr other ↦ rw (get_name-insert_name entries key name value, other) there
]

get_name-new :
    (entries : NameMap) (name : Name) (value : ℕ)
    → get_name (insert_name entries name value) name ≡ some value
get_name-new entries name value =
    rw (get_name-insert_name entries name name value, same_name_refl name) refl

remember-Keeps :
    (s : Loading) (pool : ExecPool) (name : Name) (addr : ℕ)
    → get_name s.objects.global_symbols name ≡ none
    → Keeps s (remember s pool name addr)
remember-Keeps s pool name addr absent = record {
  same_memory = refl;
  kept = λ other value there.
      get_name-fresh s.objects.global_symbols name other addr value absent there;
}

module _ ⦃h : Host⦄ ⦃v : Vendor⦄ ⦃cb : Callbacks⦄ ⦃p : Platform⦄ (fuel : ℕ) where
  pub get_symbol-known :
      (s : Loading) (name : Name) (addr : ℕ)
      → get_name s.objects.global_symbols name ≡ some addr
      → get_symbol fuel s name ≡ ok (s, addr)
  unfolding get_symbol
  get_symbol-known s name addr there = rw (there, get_symbol) refl

  get_symbol-unknown :
      (s : Loading) (name : Name)
      → get_name s.objects.global_symbols name ≡ none
      → get_symbol fuel s name ≡ locate fuel s name
  unfolding get_symbol
  get_symbol-unknown s name absent = rw (absent, get_symbol) refl

  located_lem :
      (s s' : Loading) (name : Name) (addr : ℕ) (pool : ExecPool) (found : Option ℕ)
      → located s name pool found ≡ ok (s', addr)
      → s' ≡ remember s pool name addr
  unfolding located
  located_lem s s' name addr pool none e = cc
  located_lem s s' name addr pool (some a) e =
      let same : (remember s pool name a, a) ≡ (s', addr) = ok-injective e in
      let value : a ≡ addr = ap (λ (r : Loading × ℕ). r.1) same in
      sym (ap (λ (r : Loading × ℕ). r.0) same) ∙ ap (λ (x : ℕ). remember s pool name x) value

  locate-Keeps :
      (s s' : Loading) (name : Name) (addr : ℕ)
      → get_name s.objects.global_symbols name ≡ none
      → locate fuel s name ≡ ok (s', addr)
      → Keeps s s' × (get_name s'.objects.global_symbols name ≡ some addr)
  unfolding locate
  locate-Keeps s s' name addr absent e =
      let ((pool, found), searched, e') =
        ok-bind (search_libs fuel s.memory s.pool s.objects.wrapped_libs name) _ (s', addr) e in
      subst (λ (r : Loading). Keeps s r × (get_name r.objects.global_symbols name ≡ some addr))
        (sym (located_lem s s' name addr pool found e'))
        (remember-Keeps s pool name addr absent, get_name-new s.objects.global_symbols name addr)

  -- A call of `get_symbol` that returns has kept memory outside the regions for compiled code and the addresses of the symbols that were
  -- known, and knows the symbol by the address that it returns; the same call on the state that it
  -- leaves returns the same address and changes nothing.
  pub get_symbol-Keeps :
      (s s' : Loading) (name : Name) (addr : ℕ)
      → get_symbol fuel s name ≡ ok (s', addr)
      → Keeps s s'
        × (get_name s'.objects.global_symbols name ≡ some addr)
        × (get_symbol fuel s' name ≡ ok (s', addr))
  get_symbol-Keeps s s' name addr e = elim (Option-cases (get_name s.objects.global_symbols name)) [
    | inl absent ↦
        let (keeps, there) =
          locate-Keeps s s' name addr absent (sym (get_symbol-unknown s name absent) ∙ e) in
        (keeps, there, get_symbol-known s' name addr there)
    | inr (a, there) ↦
        let same : (s, a) ≡ (s', addr) = ok-injective (sym (get_symbol-known s name a there) ∙ e) in
        subst
          (λ (r : Loading × ℕ).
            Keeps s r.0
            × (get_name r.0.objects.global_symbols name ≡ some r.1)
            × (get_symbol fuel r.0 name ≡ ok (r.0, r.1)))
          same
          (record { same_memory = refl; kept = λ n x k. k }, there, get_symbol-known s name a there)
  ]
