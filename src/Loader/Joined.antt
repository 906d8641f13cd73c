-- ===== src/Loader/Joined.antt =====
-- `load_object` of src/loader.rs as a whole: the pool of compiled code stays in order, and the object
-- joins those that were loaded before.
use xob.Base.{ℕ, ◌+◌, ◌%◌, ◌^◌, ◌≡◌, List, [], ◌∷◌, ◌++◌, none, some, length, ◌==◌, if◌then◌else◌}
use xob.Outcome.{Outcome, ok}
use xob.Memory.{Memory}
use xob.Vendor.{Vendor}
use xob.ExecPool.{ExecPool, Callbacks}
use xob.Finalize.{Platform}
use xob.Finalize.Placement.{Fresh, Small}
use xob.Runner.Cache.{WellPlaced}
use xob.Wrapped.Overrides.{Host}
use xob.Wrapped.Placed.{proxy_calls}
use xob.Loader.{Os, load_segments, generate_suitable_base_addr}
use xob.Loader.Symbols.{Loading, EmuObject}
use xob.Loader.InitFini.{collect_init_fini}
use xob.Loader.Object.{Elf, load_needed, get_entry}

-- The object that a loaded file adds.
abbrev pub loaded_object : Elf → ℕ → List ℕ → EmuObject
loaded_object elf base_addr fini_array = record {
  base_ptr = base_addr;
  fini_array = fini_array;
  entry = if elf.entry == 0 then none else some ((base_addr + elf.entry) % 2 ^ 64);
}

-- The pool stays in order; the objects are those before and the new one, at the index that is
-- returned, by which `get_entry` finds its entry.
pub record Joined (s s' : Loading) (elf : Elf) (base_addr : ℕ) (fini_array : List ℕ) (idx : ℕ)
    : Type 0 where
  pub placed : WellPlaced s'.pool
  pub added : s'.objects.objects ≡ s.objects.objects ++ loaded_object elf base_addr fini_array ∷ []
  pub at_index : idx ≡ length s.objects.objects
  pub entry : get_entry s'.objects idx ≡ ok (loaded_object elf base_addr fini_array).entry

module _ ⦃v : Vendor⦄ ⦃cb : Callbacks⦄ ⦃p : Platform⦄ ⦃h : Host⦄ ⦃os : Os⦄ (fuel : ℕ) where
  -- The base address and the segments of an object that `load_object` has linked.
  pub record LoadedAt (s linked : Loading) (elf : Elf) (fd idx : ℕ) (inits : List ℕ) : Type 0 where
    pub ready : Loading
    pub needed : load_needed fuel s elf.string elf.dynamic_table ≡ ok ready
    pub reserved : Memory
    pub base_addr : ℕ
    pub base : generate_suitable_base_addr ready.memory elf.segments ≡ ok (reserved, base_addr)
    pub memory : Memory
    pub pool : ExecPool
    pub segments : load_segments reserved ready.pool elf.segments fd base_addr ≡ ok (memory, pool)
    pub fini_array : List ℕ
    pub arrays : collect_init_fini linked.memory elf.dynamic_table base_addr ≡ (inits, fini_array)
    pub joined : Joined s linked elf base_addr fini_array idx

module _ ⦃v : Vendor⦄ ⦃cb : Callbacks⦄ ⦃p : Platform⦄ (fresh : Fresh p)
    (small : (target : ℕ) → Small p (proxy_calls target)) ⦃h : Host⦄ ⦃os : Os⦄ (fuel : ℕ) where
  -- The object is linked at `base_addr`, and its initializers are `inits`.
  abbrev LinkedAt : Loading → Loading → Elf → ℕ → ℕ → List ℕ → Type 0
  LinkedAt s linked elf base_addr idx inits =
      (fini_array : List ℕ) × (collect_init_fini linked.memory elf.dynamic_table base_addr
        ≡ (inits, fini_array))
      × Joined s linked elf base_addr fini_array idx
