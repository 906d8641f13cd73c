-- ===== src/Loader/Symbols.antt =====
-- src/loader.rs: the pool of loaded objects, and the addresses of global symbols.
pub mod Cached
use xob.Base.{ℕ, List, [], ◌∷◌, Option, none, some}
use xob.Outcome.{Outcome, ok, panic, ◌>>=◌}
use xob.Memory.{Memory, Name, NameMap, get_name, insert_name}
use xob.Vendor.{Vendor}
use xob.ExecPool.{ExecPool, Callbacks}
use xob.Finalize.{Platform}
use xob.Wrapped
use xob.Wrapped.{WrappedLib}
use xob.Wrapped.Overrides.{Host}

pub record EmuObject : Type 0 where
  pub base_ptr : ℕ
  pub fini_array : List ℕ
  pub entry : Option ℕ

pub record ObjectPool : Type 0 where
  pub objects : List EmuObject
  pub wrapped_libs : List WrappedLib
  pub global_symbols : NameMap

-- What the loader changes: memory outside the regions for compiled code, the objects, and the pool
-- with these regions, whose `code` has the proxies that are copied there.
pub record Loading : Type 0 where
  pub memory : Memory
  pub objects : ObjectPool
  pub pool : ExecPool

abbrev pub remember : Loading → ExecPool → Name → ℕ → Loading
remember s pool name addr = record {
  memory = s.memory;
  objects = record s.objects { global_symbols = insert_name s.objects.global_symbols name addr };
  pool = pool;
}

-- What a library gives, or else the rest of the search.
unfoldable pub first_found :
    ExecPool → Option ℕ → Outcome (ExecPool × Option ℕ) → Outcome (ExecPool × Option ℕ)
first_found pool (some addr) rest = ok (pool, some addr)
first_found pool none rest = rest

unfoldable pub located : Loading → Name → ExecPool → Option ℕ → Outcome (Loading × ℕ)
located s name pool none = panic
located s name pool (some addr) = ok (remember s pool name addr, addr)

module _ ⦃h : Host⦄ ⦃v : Vendor⦄ ⦃cb : Callbacks⦄ ⦃p : Platform⦄ (fuel : ℕ) where
  -- The first library that has the symbol.
  unfoldable pub search_libs :
      Memory → ExecPool → List WrappedLib → Name → Outcome (ExecPool × Option ℕ)
  unfolding first_found
  search_libs m pool [] name = ok (pool, none)
  search_libs m pool (lib ∷ libs) name = do
    (pool', found) ← Wrapped.get_symbol fuel m pool lib name
    first_found pool' found (search_libs m pool' libs name)

  unfoldable pub locate : Loading → Name → Outcome (Loading × ℕ)
  unfolding search_libs located
  locate s name = do
    (pool', found) ← search_libs s.memory s.pool s.objects.wrapped_libs name
    located s name pool' found

  unfoldable pub get_symbol : Loading → Name → Outcome (Loading × ℕ)
  unfolding locate
  get_symbol s name = elim (get_name s.objects.global_symbols name) [
    | some addr ↦ ok (s, addr)
    | none ↦ locate s name
  ]
