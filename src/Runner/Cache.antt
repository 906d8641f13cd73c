-- ===== src/Runner/Cache.antt =====
-- The cache of chunks in order: the code of the chunks does not overlap, and lies in the regions of
-- the pool. What `finalize_chunk` of src/runner/compiler.rs adds to it.
use mathlib.Core.Path.{subst}
use xob.Base.{
  refl, ℕ, ◌+◌, ◌≤◌, ◌≡◌, ◌≢◌, ◌⊎◌, inl, inr, sym, arith, none, some, List, ◌∷◌, length, ◌==◌,
  Bool-cases,
}
use xob.Outcome.{ok, unwrap, ok-bind, ok-injective}
use xob.Vendor.Iced.{Call}
use xob.ExecPool.{ExecPool, ChunkMap, CompiledChunk, executable_alloc_size, get_chunk, insert_chunk}
use xob.Finalize.{
  Platform, Encoded, ensure_region, place, finalize_ass, instr_offsets, finalize_chunk,
}
use xob.Finalize.Placement.{Regions, Keeps, Fresh, Small, Stored}
use xob.Finalize.Allocation.{Grown, Grown-trans, ensure-Grown, place-Grown}
use xob.Runner.FromExec.{Apart, Disjoint}

-- The invariant of the pool.
pub record WellPlaced (pool : ExecPool) : Type 0 where
  pub regions : Regions pool
  pub apart : Apart pool.executable_map
  pub stored :
      (k : ℕ) (c : CompiledChunk) → get_chunk pool.executable_map k ≡ some c → Stored pool c

-- The pool after bytes have been copied to its current region, and their chunk.
abbrev used_more : ExecPool → List ℕ → ExecPool
used_more pool bytes = record pool {
  current_alloc_utilization = pool.current_alloc_utilization + length bytes;
  code = (pool.current_alloc + pool.current_alloc_utilization, bytes) ∷ pool.code;
}

abbrev new_chunk : ExecPool → ℕ → List ℕ → CompiledChunk
new_chunk pool n offsets = record {
  instr_map = offsets;
  addr = pool.current_alloc + pool.current_alloc_utilization;
  len = n;
}

used_more-Keeps : (pool : ExecPool) (bytes : List ℕ) → Keeps pool (used_more pool bytes)
used_more-Keeps pool bytes c (inl retired) = inl retired
used_more-Keeps pool bytes c (inr (ne, (lo, hi))) = inr (ne, (lo, omega arith))

new_chunk-Disjoint :
    (pool : ExecPool) (n : ℕ) (offsets : List ℕ) (c : CompiledChunk)
    → Regions pool
    → pool.current_alloc ≢ 0
    → pool.current_alloc_utilization + n ≤ executable_alloc_size
    → Stored pool c
    → Disjoint (new_chunk pool n offsets) c
new_chunk-Disjoint pool n offsets c reg ne fits (inl (r, held, (lo, hi))) =
    elim (reg.clear r held ne) [ inl before ↦ inr (omega arith) | inr after ↦ inl (omega arith) ]
new_chunk-Disjoint pool n offsets c reg ne fits (inr (_, (lo, hi))) = inr hi

-- The code of a chunk has been copied to its address, and nothing else has been copied.
abbrev pub Copied : ExecPool → ExecPool → CompiledChunk → Type 0
Copied pool pool' c =
    (bytes : List ℕ) × (length bytes ≡ c.len) × (pool'.code ≡ (c.addr, bytes) ∷ pool.code)

-- What a finished chunk adds to a pool.
pub record Added (pool pool' : ExecPool) (c : CompiledChunk) : Type 0 where
  pub regions : Regions pool'
  pub keeps : Keeps pool pool'
  pub stored : Stored pool' c
  pub disjoint : (c' : CompiledChunk) → Stored pool c' → Disjoint c c'
  pub same_map : pool'.executable_map ≡ pool.executable_map
  pub same_ranges : pool'.exec_ranges ≡ pool.exec_ranges
  pub copied : Copied pool pool' c

new_chunk-Added :
    (pool placed : ExecPool) (bytes offsets : List ℕ)
    → Grown pool placed
    → placed.current_alloc_utilization + length bytes ≤ executable_alloc_size
    → Added pool (used_more placed bytes) (new_chunk placed (length bytes) offsets)
new_chunk-Added pool placed bytes offsets g fits = record {
  regions = record { within = fits; clear = g.regions.clear };
  keeps = λ c s. used_more-Keeps placed bytes c (g.keeps c s);
  stored = inr (g.present, (omega arith, omega arith));
  disjoint = λ c' s.
      new_chunk-Disjoint placed (length bytes) offsets c' g.regions g.present fits (g.keeps c' s);
  same_map = g.same_map;
  same_ranges = g.same_ranges;
  copied = (bytes, refl, rw g.same_code refl);
}

module _ ⦃p : Platform⦄ (fresh : Fresh p) where
  pub finalize_ass-lem :
      (pool pool' : ExecPool) (instrs : List Call) (target : ℕ) (enc : Encoded) (offsets : List ℕ)
      → Regions pool
      → Small p instrs
      → finalize_ass pool instrs ≡ ok (pool', target, enc)
      → Added pool pool'
          (record { instr_map = offsets; addr = target; len = length enc.code_buffer })
  unfolding finalize_ass
  finalize_ass-lem pool pool' instrs target enc offsets reg small h =
      let (ready, e1, h1) = ok-bind (ensure_region pool) _ (pool', target, enc) h in
      let (first, e2, h2) =
        ok-bind (unwrap (p.encode instrs ready.current_alloc)) _ (pool', target, enc) h1 in
      let ((placed, code), e3, h3) = ok-bind (place instrs ready first) _ (pool', target, enc) h2 in
      let ready' = ensure-Grown fresh pool ready reg e1 in
      let (placed', fits) =
        place-Grown fresh instrs ready placed first code ready'.regions ready'.present small e3 in
      subst
        (λ (r : ExecPool × ℕ × Encoded).
          Added pool r.0 (record { instr_map = offsets; addr = r.1; len = length r.2.code_buffer }))
        (ok-injective h3)
        (new_chunk-Added pool placed code.code_buffer offsets (Grown-trans ready' placed') fits)

  pub finalize_chunk-Added :
      (pool pool' : ExecPool) (instrs : List Call) (n : ℕ) (x86_idxs : List ℕ) (c : CompiledChunk)
      → Regions pool
      → Small p instrs
      → finalize_chunk pool instrs n x86_idxs ≡ ok (pool', c)
      → Added pool pool' c
  unfolding finalize_chunk
  finalize_chunk-Added pool pool' instrs n x86_idxs c reg small h =
      let ((placed, target, enc), e1, h1) = ok-bind (finalize_ass pool instrs) _ (pool', c) h in
      let (offsets, e2, h2) = ok-bind (instr_offsets enc n x86_idxs) _ (pool', c) h1 in
      subst (λ (r : ExecPool × CompiledChunk). Added pool r.0 r.1) (ok-injective h2)
        (finalize_ass-lem pool placed instrs target enc offsets reg small e1)

pub get_chunk-cons :
    (m : ChunkMap) (k j : ℕ) (c c' : CompiledChunk)
    → get_chunk ((k, c) ∷ m) j ≡ some c'
    → (c ≡ c') ⊎ (get_chunk m j ≡ some c')
unfolding get_chunk
get_chunk-cons m k j c c' h = elim (Bool-cases (k == j)) [
  | inl same ↦ inl (ground arith)
  | inr other ↦ inr (ground arith)
]

-- The chunk joins the cache.
pub insert-WellPlaced :
    (pool pool' : ExecPool) (k : ℕ) (c : CompiledChunk)
    → WellPlaced pool
    → get_chunk pool.executable_map k ≡ none
    → Added pool pool' c
    → WellPlaced (record pool' { executable_map = insert_chunk pool'.executable_map k c })
unfolding insert_chunk
insert-WellPlaced pool pool' k c w absent added = rw added.same_map (record {
  regions = record { within = added.regions.within; clear = added.regions.clear };
  apart = (absent, λ j c' h. added.disjoint c' (w.stored j c' h), w.apart);
  stored = λ j c' h. elim (get_chunk-cons pool.executable_map k j c c' h) [
    | inl same ↦ rw (sym same) added.stored
    | inr old ↦ added.keeps c' (w.stored j c' old)
  ];
})
