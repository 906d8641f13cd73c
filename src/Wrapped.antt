-- ===== src/Wrapped.antt =====
-- src/wrapped.rs: libraries of the host, and the addresses of their symbols for emulated code.
pub mod ElfLookup
pub mod Overrides
pub mod Proxy
pub mod Placed
use xob.Base.{
  ℕ, ◌+◌, ◌*◌, ◌/◌, ◌%◌, ◌^◌, Bool, not, ◌&&◌, ◌||◌, List, [], ◌∷◌, Option, none, some, ◌==◌,
  if◌then◌else◌,
}
use xob.Outcome.{Outcome, ok, panic, unwrap, ◌>>=◌}
use xob.Memory.{Memory, Name, NameMap, read_le, get_name}
use xob.Vendor.{Vendor}
use xob.ExecPool.{ExecPool, Callbacks}
use xob.Assembler.{expect}
use xob.Finalize.{Platform}
use xob.Runner.{alloc_code, new_assembler}
use ElfLookup.{LoadedObjectInfo, SymbolFinder, loaded_object_info, new, lookup}
use Overrides.{Host, get_overrides}
use Proxy.{lib_proxy}

abbrev pub stb_local : ℕ
stb_local = 0

abbrev pub stb_global : ℕ
stb_global = 1

abbrev pub stb_weak : ℕ
stb_weak = 2

abbrev pub stt_func : ℕ
stt_func = 2

abbrev pub stt_gnu_ifunc : ℕ
stt_gnu_ifunc = 10

abbrev pub shn_undef : ℕ
shn_undef = 0

pub record WrappedLib : Type 0 where
  pub handle : ℕ
  pub base_addr : ℕ
  pub overrides : NameMap
  pub symbol_finder : SymbolFinder
  pub path : Name

module _ ⦃h : Host⦄ where
  -- No library where `dlopen` fails.
  unfoldable pub try_load : ℕ → Memory → Name → Outcome (Option WrappedLib)
  unfolding get_overrides loaded_object_info new
  try_load fuel m name = if h.dlopen name == 0 then ok none else (do
    obj_info ← unwrap (loaded_object_info h.objects name)
    symbol_finder ← new fuel m obj_info
    ok (
        some (record {
          handle = h.dlopen name;
          base_addr = obj_info.base_addr;
          overrides = get_overrides name;
          symbol_finder = symbol_finder;
          path = obj_info.path;
        })))

module _ ⦃v : Vendor⦄ ⦃cb : Callbacks⦄ ⦃p : Platform⦄ where
  unfoldable pub create_lib_proxy : ExecPool → ℕ → Outcome (ExecPool × ℕ)
  unfolding lib_proxy
  create_lib_proxy pool target =
      let run = lib_proxy target new_assembler in do done ← run.0; alloc_code pool run.1.calls

-- The fields of an `Elf64_Sym` at an address.
abbrev pub st_info : Memory → ℕ → ℕ
st_info m at = m (at + 4)

abbrev pub st_shndx : Memory → ℕ → ℕ
st_shndx m at = read_le 2 m (at + 6)

abbrev pub st_value : Memory → ℕ → ℕ
st_value m at = read_le 8 m (at + 8)

unfoldable pub is_defined : Memory → ℕ → Bool
is_defined m at =
    (st_info m at / 16 == stb_global || st_info m at / 16 == stb_weak)
    && not (st_shndx m at == shn_undef)

module _ ⦃h : Host⦄ ⦃v : Vendor⦄ ⦃cb : Callbacks⦄ ⦃p : Platform⦄ where
  -- A function gets a proxy, also behind a resolver; a variable is used as it is.
  unfoldable pub symbol_address : ExecPool → ℕ → ℕ → Outcome (ExecPool × ℕ)
  unfolding create_lib_proxy
  symbol_address pool ty addr =
      if ty == stt_func
      then expect (create_lib_proxy pool addr)
      else if ty == stt_gnu_ifunc
      then expect (create_lib_proxy pool (h.run_resolver addr))
      else ok (pool, addr)

  unfoldable pub found_symbol :
      Memory → ExecPool → WrappedLib → Option ℕ → Outcome (ExecPool × Option ℕ)
  unfolding is_defined symbol_address
  found_symbol m pool lib none = ok (pool, none)
  found_symbol m pool lib (some at) =
      if is_defined m at
      then (do
        (pool', addr) ←
            symbol_address pool (st_info m at % 16) ((st_value m at + lib.base_addr) % 2 ^ 64)
        ok (pool', some addr))
      else ok (pool, none)

  unfoldable pub lookup_symbol :
      ℕ → Memory → ExecPool → WrappedLib → Name → Outcome (ExecPool × Option ℕ)
  unfolding lookup found_symbol
  lookup_symbol fuel m pool lib name =
      if h.dlsym lib.handle name == 0
      then ok (pool, none)
      else (do sym ← lookup h.gnu_hash fuel m lib.symbol_finder name; found_symbol m pool lib sym)

  unfoldable pub get_symbol :
      ℕ → Memory → ExecPool → WrappedLib → Name → Outcome (ExecPool × Option ℕ)
  unfolding lookup_symbol
  get_symbol fuel m pool lib name = elim (get_name lib.overrides name) [
    | some ov ↦ ok (pool, some ov)
    | none ↦ lookup_symbol fuel m pool lib name
  ]
