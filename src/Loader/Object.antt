-- ===== src/Loader/Object.antt =====
-- `handle_needed`, `load_object` and `get_entry` of src/loader.rs. `Elf` is the file as the `object`
-- crate reads it. What a call of an address of the program does is a parameter.
use xob.Base.{
  ℕ, ◌+◌, ◌%◌, ◌^◌, Bool, not, ◌&&◌, ◌||◌, List, [], ◌∷◌, ◌++◌, Option, none, some, length, ◌==◌,
  if◌then◌else◌,
}
use xob.Outcome.{Outcome, ok, panic, unwrap, index, ◌>>=◌}
use xob.Memory.{Name, NameMap, insert_name, ends_with, starts_with}
use xob.Vendor.{Vendor}
use xob.ExecPool.{Callbacks}
use xob.Finalize.{Platform}
use xob.Wrapped.{WrappedLib, try_load, stb_local, stb_global, stb_weak, shn_undef}
use xob.Wrapped.Overrides.{Host}
use xob.Loader.{Os, Segment, load_segments, generate_suitable_base_addr}
use xob.Loader.Symbols.{Loading, ObjectPool, EmuObject}
use xob.Loader.Relocations.{Relocation, RelocationSymbol, resolve_relocations}
use xob.Loader.InitFini.{Dynamic, collect_init_fini}

abbrev pub dt_needed : ℕ
dt_needed = 1

-- "ld-linux-aarch64.so"
abbrev pub dynamic_linker : Name
dynamic_linker =
    b'l' ∷ b'd' ∷ b'-' ∷ b'l' ∷ b'i' ∷ b'n' ∷ b'u' ∷ b'x' ∷ b'-' ∷ b'a' ∷ b'a' ∷ b'r' ∷ b'c' ∷ b'h'
    ∷ b'6' ∷ b'4' ∷ b'.' ∷ b's' ∷ b'o' ∷ []

pub record DynamicSymbol : Type 0 where
  pub name : Name
  pub st_shndx : ℕ
  pub st_bind : ℕ
  pub st_other : ℕ
  pub st_value : ℕ

pub record Elf : Type 0 where
  pub dynamic_table : List Dynamic
  pub string : ℕ → Option Name
  pub segments : List Segment
  pub dynamic_symbols : List DynamicSymbol
  pub symbol_by_index : ℕ → Option RelocationSymbol
  pub dynamic_relocations : List Relocation
  pub entry : ℕ

unfoldable pub already_loaded : List WrappedLib → Name → Bool
unfolding ends_with
already_loaded [] name = Bool.false
already_loaded (lib ∷ libs) name = ends_with lib.path name || already_loaded libs name

abbrev pub with_libs : Loading → List WrappedLib → Loading
with_libs s libs = record s { objects = record s.objects { wrapped_libs = libs } }

abbrev pub with_object : Loading → EmuObject → Loading
with_object s object = record s {
  objects = record s.objects { objects = s.objects.objects ++ object ∷ [] };
}

unfoldable pub collect_symbol : NameMap × NameMap → ℕ → DynamicSymbol → NameMap × NameMap
unfolding insert_name
collect_symbol (globals, locals) base_addr symbol =
    let addr = (base_addr + symbol.st_value) % 2 ^ 64 in
    if not (symbol.st_shndx == shn_undef) && symbol.st_other == 0
    then (if symbol.st_bind == stb_global || symbol.st_bind == stb_weak
        then (insert_name globals symbol.name addr, locals)
        else if symbol.st_bind == stb_local
        then (globals, insert_name locals symbol.name addr)
        else (globals, locals))
    else (globals, locals)

-- The global symbols with those of the object, and the local ones.
unfoldable pub collect_symbols : NameMap × NameMap → ℕ → List DynamicSymbol → NameMap × NameMap
unfolding collect_symbol
collect_symbols known base_addr [] = known
collect_symbols known base_addr (symbol ∷ symbols) =
    collect_symbols (collect_symbol known base_addr symbol) base_addr symbols

abbrev pub with_globals : Loading → NameMap → Loading
with_globals s globals = record s { objects = record s.objects { global_symbols = globals } }

unfoldable pub push_lib : Loading → Option WrappedLib → Outcome Loading
push_lib s none = panic
push_lib s (some lib) = ok (with_libs s (s.objects.wrapped_libs ++ lib ∷ []))

module _ ⦃h : Host⦄ (fuel : ℕ) where
  unfoldable pub handle_needed : Loading → Name → Outcome Loading
  unfolding already_loaded push_lib starts_with
  handle_needed s name =
      if already_loaded s.objects.wrapped_libs name
      then ok s
      else if h.is_utf8 name && starts_with name dynamic_linker
      then ok s
      else (do lib ← try_load fuel s.memory name; push_lib s lib)

  unfoldable pub load_dynamic : Loading → (ℕ → Option Name) → Dynamic → Outcome Loading
  unfolding handle_needed
  load_dynamic s string dynamic =
      if dynamic.tag == dt_needed
      then (do name ← unwrap (string dynamic.val); handle_needed s name)
      else ok s

  unfoldable pub load_needed : Loading → (ℕ → Option Name) → List Dynamic → Outcome Loading
  unfolding load_dynamic
  load_needed s string [] = ok s
  load_needed s string (dynamic ∷ dynamics) = do
    s' ← load_dynamic s string dynamic
    load_needed s' string dynamics

-- The loop over the initializers; `call` is `runner::call` with the arguments of the program.
unfoldable pub call_all : (ℕ → Loading → Outcome Loading) → List ℕ → Loading → Outcome Loading
call_all call [] s = ok s
call_all call (ptr ∷ ptrs) s = do s' ← call ptr s; call_all call ptrs s'

module _ ⦃h : Host⦄ ⦃v : Vendor⦄ ⦃cb : Callbacks⦄ ⦃p : Platform⦄ ⦃os : Os⦄ (fuel : ℕ) where
  -- Everything behind the choice of the base address, with the segments in memory.
  unfoldable pub link_object : Loading → Elf → ℕ → Outcome (Loading × ℕ × List ℕ)
  unfolding collect_symbols collect_init_fini resolve_relocations
  link_object s elf base_addr = do
    let symbols = collect_symbols (s.objects.global_symbols, []) base_addr elf.dynamic_symbols
    linked ←
        resolve_relocations fuel elf.symbol_by_index base_addr symbols.1 (with_globals s symbols.0)
          elf.dynamic_relocations
    let arrays = collect_init_fini linked.memory elf.dynamic_table base_addr
    let object : EmuObject = record {
      base_ptr = base_addr;
      fini_array = arrays.1;
      entry = if elf.entry == 0 then none else some ((base_addr + elf.entry) % 2 ^ 64);
    }
    ok (with_object linked object, length linked.objects.objects, arrays.0)

  -- `load_object` while it has the lock: the new object's index, and the initializers to call.
  unfoldable pub load_and_link : Loading → Elf → ℕ → Outcome (Loading × ℕ × List ℕ)
  unfolding load_needed generate_suitable_base_addr load_segments link_object
  load_and_link s elf fd = do
    ready ← load_needed fuel s elf.string elf.dynamic_table
    (reserved, base_addr) ← generate_suitable_base_addr ready.memory elf.segments
    (memory, pool) ← load_segments reserved ready.pool elf.segments fd base_addr
    link_object (record { memory = memory; objects = ready.objects; pool = pool }) elf base_addr

  unfoldable pub load_object :
      (ℕ → Loading → Outcome Loading) → Loading → Elf → ℕ → Outcome (Loading × ℕ)
  unfolding load_and_link call_all
  load_object call s elf fd = do
    (linked, idx, init_array) ← load_and_link s elf fd
    s' ← call_all call init_array linked
    ok (s', idx)

unfoldable pub get_entry : ObjectPool → ℕ → Outcome (Option ℕ)
get_entry pool object_idx = do object ← index pool.objects object_idx; ok object.entry
