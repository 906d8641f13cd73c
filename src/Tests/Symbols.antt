-- ===== src/Tests/Symbols.antt =====
-- A library with one override, a symbol of the object itself, and four relocations.
use xob.Base.{
  ℕ, ◌≡◌, refl, inl, Option, arith, some, none, List, [], ◌∷◌, true, false, ◌==◌, if◌then◌else◌,
}
use xob.Outcome.{ok}
use xob.Memory.{Name, NameMap, get_name, insert_name, same_name, write_u64}
use xob.Wrapped
use xob.Wrapped.{WrappedLib}
use xob.Wrapped.Overrides.{Host}
use xob.Loader.Symbols.{Loading, get_symbol, locate, located, search_libs}
use xob.Loader.Symbols.Cached.{Keeps, get_symbol-Keeps}
use xob.Loader.Relocations.{
  Relocation, RelocationSymbol, resolve_relocations, resolve_relocation, resolve_as, bind_symbol,
  resolve_symbol, symbol_value,
}
use xob.Loader.Relocations.Meaning.{Distinct, AllRelocated, OutsideAll}
use xob.Loader.Relocations.Slots.{resolve_relocations-Relocated}
use xob.Tests.Setup.{vendor, callbacks, platform}
use xob.Tests.Chunks.{pool}

abbrev pub host : Host
host = record {
  dlopen = λ name. 1;
  dlsym = λ handle name. 0;
  objects = [];
  gnu_hash = λ name. 0;
  run_resolver = λ addr. addr;
  is_utf8 = λ name. true;
  libc_start_main = 1;
  cxa_atexit = 2;
  stack_chk_guard = 3;
}

abbrev pub main_name : Name
main_name = b'm' ∷ []

abbrev pub exit_name : Name
exit_name = b'e' ∷ []

abbrev pub lib : WrappedLib
lib = record {
  handle = 1;
  base_addr = 0;
  overrides = (exit_name, 4242) ∷ [];
  symbol_finder = record {
    hash_table = record {
      header = record { nbuckets = 1; symoffset = 1; bloom_size = 1; bloom_shift = 0 };
      bloom = 0;
      buckets = 0;
      chain = 0;
    };
    symtab = 0;
    strtab = 0;
  };
  path = [];
}

abbrev pub loading : Loading
loading = record {
  memory = λ x. 7;
  objects = record { objects = []; wrapped_libs = lib ∷ []; global_symbols = [] };
  pool = pool;
}

abbrev known : Loading
known = record {
  memory = λ x. 7;
  objects = record {
    objects = [];
    wrapped_libs = lib ∷ [];
    global_symbols = (exit_name, 4242) ∷ [];
  };
  pool = pool;
}

located_exit :
    get_symbol ⦃h = host⦄ ⦃v = vendor⦄ ⦃cb = callbacks⦄ ⦃p = platform⦄ 0 loading exit_name
    ≡ ok (known, 4242)
unfolding get_symbol locate located search_libs Wrapped.get_symbol get_name insert_name same_name
located_exit = refl

get_symbol-Keeps_example :
    Keeps loading known
    × (get_name ((exit_name, 4242) ∷ []) exit_name ≡ some 4242)
    × (get_symbol ⦃h = host⦄ ⦃v = vendor⦄ ⦃cb = callbacks⦄ ⦃p = platform⦄ 0 known exit_name
        ≡ ok (known, 4242))
get_symbol-Keeps_example =
    get_symbol-Keeps ⦃h = host⦄ ⦃v = vendor⦄ ⦃cb = callbacks⦄ ⦃p = platform⦄ 0 loading known
      exit_name 4242 located_exit

abbrev pub symbols : ℕ → Option RelocationSymbol
symbols idx =
    if idx == 0
    then some (record { name = exit_name; is_weak = false })
    else if idx == 1
    then some (record { name = main_name; is_weak = false })
    else some (record { name = main_name; is_weak = true })

abbrev locals : NameMap
locals = (main_name, 9100) ∷ []

abbrev pub relocation : ℕ → ℕ → ℕ → Option ℕ → Relocation
relocation addr ty addend target = record {
  addr = addr;
  r_type = some ty;
  addend = addend;
  target = target;
}

abbrev pub relocations : List Relocation
relocations =
    relocation 16 1027 100 none
    ∷ relocation 24 1025 0 (some 0)
    ∷ relocation 40 1026 0 (some 1)
    ∷ relocation 48 1026 0 (some 2)
    ∷ []

relocations-Distinct : Distinct symbols 4096 locals relocations
relocations-Distinct = (
  (inl (omega arith), (inl (omega arith), (inl (omega arith), tt))),
  ((inl (omega arith), (inl (omega arith), tt)), ((inl (omega arith), tt), (tt, tt))),
)

abbrev relocated : Loading
relocated = record known {
  memory = write_u64 (write_u64 (write_u64 (λ x. 7) 4112 4196) 4120 4242) 4136 9100;
}

relocates :
    resolve_relocations ⦃h = host⦄ ⦃v = vendor⦄ ⦃cb = callbacks⦄ ⦃p = platform⦄ 0 symbols 4096
      locals loading relocations
    ≡ ok relocated
unfolding resolve_relocations resolve_relocation resolve_as bind_symbol resolve_symbol symbol_value
    get_symbol locate located search_libs Wrapped.get_symbol get_name insert_name same_name
relocates = refl

resolve_relocations-Relocated_example :
    AllRelocated symbols 4096 locals ((exit_name, 4242) ∷ []) (λ x. 7) relocated.memory relocations
    × ((x : ℕ) → OutsideAll symbols 4096 locals x relocations → relocated.memory x ≡ 7)
    × ((name : Name) (a : ℕ)
        → get_name [] name ≡ some a
        → get_name ((exit_name, 4242) ∷ []) name ≡ some a)
resolve_relocations-Relocated_example =
    resolve_relocations-Relocated symbols 4096 locals ⦃h = host⦄ ⦃v = vendor⦄ ⦃cb = callbacks⦄
      ⦃p = platform⦄ 0 loading relocated relocations relocations-Distinct relocates
