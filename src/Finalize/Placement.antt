-- ===== src/Finalize/Placement.antt =====
-- Where `finalize_ass` puts code: the regions of the pool stay apart, and so does the code of the
-- chunks in them.
use xob.Base.{
  ℕ, zero, suc, ◌+◌, ◌≤◌, ◌≡◌, ◌≢◌, ◌⊎◌, inl, inr, refl, arith, some, List, [], ◌∷◌, length,
  get_elem?, get_elem?-snoc, get_elem?-append, get_elem?-last,
}
use xob.Vendor.Iced.{Call}
use xob.ExecPool.{ExecPool, CompiledChunk, executable_alloc_size}
use xob.Finalize.{Platform, Encoded, retire}

-- Two executable regions do not overlap.
abbrev pub Clear : ℕ → ℕ → Type 0
Clear r r' = (r + executable_alloc_size ≤ r') ⊎ (r' + executable_alloc_size ≤ r)

abbrev pub Retired : ExecPool → ℕ → Type 0
Retired pool r = (i : ℕ) × (get_elem? pool.fully_used_allocs i ≡ some r)

-- The code of a chunk lies between two addresses.
abbrev pub Inside : CompiledChunk → ℕ → ℕ → Type 0
Inside c lo hi = (lo ≤ c.addr) × (c.addr + c.len ≤ hi)

-- The code lies in a retired region, or in the used part of the current one.
abbrev pub Stored : ExecPool → CompiledChunk → Type 0
Stored pool c =
    ((r : ℕ) × Retired pool r × Inside c r (r + executable_alloc_size))
    ⊎ ((pool.current_alloc ≢ 0)
        × Inside c pool.current_alloc (pool.current_alloc + pool.current_alloc_utilization))

-- The current region, if there is one, is not used beyond its end and overlaps no retired region.
pub record Regions (pool : ExecPool) : Type 0 where
  pub within : pool.current_alloc_utilization ≤ executable_alloc_size
  pub clear : (r : ℕ) → Retired pool r → pool.current_alloc ≢ 0 → Clear r pool.current_alloc

-- `mmap` gives a region that is not null and overlaps none that the pool has.
pub record Fresh (p : Platform) : Type 0 where
  pub not_null : (pool : ExecPool) (r : ℕ) → p.mmap pool ≡ some r → r ≢ 0
  pub retired : (pool : ExecPool) (r q : ℕ) → p.mmap pool ≡ some r → Retired pool q → Clear q r
  pub current :
      (pool : ExecPool) (r : ℕ)
      → p.mmap pool ≡ some r
      → pool.current_alloc ≢ 0
      → Clear pool.current_alloc r

-- Wherever the instructions are placed, their code fits in one region.
abbrev pub Small : Platform → List Call → Type 0
Small p instrs =
    (addr : ℕ) (e : Encoded)
    → p.encode instrs addr ≡ some e
    → length e.code_buffer ≤ executable_alloc_size

-- What was stored is stored in the regions of `pool'`.
abbrev pub Keeps : ExecPool → ExecPool → Type 0
Keeps pool pool' = (c : CompiledChunk) → Stored pool c → Stored pool' c

Retired-retire :
    (cur : ℕ) (used : List ℕ) (i r : ℕ)
    → get_elem? (retire cur used) i ≡ some r
    → (get_elem? used i ≡ some r) ⊎ ((r ≡ cur) × (cur ≢ 0))
Retired-retire zero used i r h = inl h
Retired-retire (suc p) used i r h = elim (get_elem?-snoc used (suc p) i r h) [
  | inl e ↦ inl e
  | inr e ↦ inr (e, λ z. omega arith)
]

retire-keeps :
    (cur : ℕ) (used : List ℕ) (i r : ℕ)
    → get_elem? used i ≡ some r
    → get_elem? (retire cur used) i ≡ some r
retire-keeps zero used i r h = h
retire-keeps (suc p) used i r h = get_elem?-append used (suc p ∷ []) i r h

retire-adds :
    (cur : ℕ) (used : List ℕ) → cur ≢ 0 → get_elem? (retire cur used) (length used) ≡ some cur
retire-adds zero used ne = absurd (ne refl)
retire-adds (suc p) used ne = get_elem?-last used (suc p)

-- The pool after a region `r` has been allocated.
abbrev pub with_region : ExecPool → ℕ → ExecPool
with_region pool r = record pool {
  fully_used_allocs = retire pool.current_alloc pool.fully_used_allocs;
  current_alloc = r;
  current_alloc_utilization = 0;
}

module _ ⦃p : Platform⦄ (fresh : Fresh p) where
  pub with_region-Regions :
      (pool : ExecPool) (r : ℕ) → p.mmap pool ≡ some r → Regions (with_region pool r)
  with_region-Regions pool r h = record {
    within = omega arith;
    clear = λ q (i, e) _. elim (Retired-retire pool.current_alloc pool.fully_used_allocs i q e) [
      | inl old ↦ fresh.retired pool r q h (i, old)
      | inr (same, ne) ↦ rw same (fresh.current pool r h ne)
    ];
  }

  pub with_region-Keeps : (pool : ExecPool) (r : ℕ) → Regions pool → Keeps pool (with_region pool r)
  with_region-Keeps pool r reg c (inl (q, (i, e), inside)) =
      inl (q, (i, retire-keeps pool.current_alloc pool.fully_used_allocs i q e), inside)
  with_region-Keeps pool r reg c (inr (ne, (lo, hi))) = inl (
    pool.current_alloc,
    (length pool.fully_used_allocs, retire-adds pool.current_alloc pool.fully_used_allocs ne),
    (lo, (let w = reg.within in omega arith)),
  )
