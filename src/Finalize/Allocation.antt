-- ===== src/Finalize/Allocation.antt =====
-- `alloc_new_region` and the placement in `finalize_ass` keep what the regions hold.
use xob.Base.{
  ap, ◌∙◌, ◌+◌, ◌≤◌, ◌≡◌, ◌≢◌, inl, inr, refl, sym, arith, List, length, ltb, ◌==◌, Bool-cases,
}
use xob.Outcome.{ok, unwrap, ◌>>=◌, ok-bind, ok-unwrap, ok-injective}
use xob.Vendor.Iced.{Call}
use xob.ExecPool.{ExecPool, executable_alloc_size}
use xob.Finalize.{Platform, Encoded, alloc_new_region, ensure_region, place}
use xob.Finalize.Placement.{
  Regions, Keeps, Fresh, Small, with_region, with_region-Regions, with_region-Keeps,
}

-- What an allocation keeps of a pool.
pub record Grown (pool pool' : ExecPool) : Type 0 where
  pub regions : Regions pool'
  pub keeps : Keeps pool pool'
  pub present : pool'.current_alloc ≢ 0
  pub same_map : pool'.executable_map ≡ pool.executable_map
  pub same_ranges : pool'.exec_ranges ≡ pool.exec_ranges
  pub same_code : pool'.code ≡ pool.code

pub Grown-trans : {a b c : ExecPool} → Grown a b → Grown b c → Grown a c
Grown-trans f g = record {
  regions = g.regions;
  keeps = λ c s. g.keeps c (f.keeps c s);
  present = g.present;
  same_map = g.same_map ∙ f.same_map;
  same_ranges = g.same_ranges ∙ f.same_ranges;
  same_code = g.same_code ∙ f.same_code;
}

Grown-refl : (pool : ExecPool) → Regions pool → pool.current_alloc ≢ 0 → Grown pool pool
Grown-refl pool reg ne = record {
  regions = reg;
  keeps = λ c s. s;
  present = ne;
  same_map = refl;
  same_ranges = refl;
  same_code = refl;
}

module _ ⦃p : Platform⦄ (fresh : Fresh p) where
  alloc-Grown :
      (pool pool' : ExecPool) → Regions pool → alloc_new_region pool ≡ ok pool' → Grown pool pool'
  unfolding alloc_new_region
  alloc-Grown pool pool' reg h =
      let (r, e, e') = ok-bind (unwrap (p.mmap pool)) (λ r. ok (with_region pool r)) pool' h in
      let given = ok-unwrap (p.mmap pool) r e in
      rw (sym (ok-injective e')) (record {
        regions = with_region-Regions fresh pool r given;
        keeps = with_region-Keeps fresh pool r reg;
        present = fresh.not_null pool r given;
        same_map = refl;
        same_ranges = refl;
        same_code = refl;
      })

  pub ensure-Grown :
      (pool pool' : ExecPool) → Regions pool → ensure_region pool ≡ ok pool' → Grown pool pool'
  unfolding ensure_region
  ensure-Grown pool pool' reg h = elim (Bool-cases (pool.current_alloc == 0)) [
    | inl null ↦ alloc-Grown pool pool' reg (rw null at h)
    | inr present ↦
        (let same : pool ≡ pool' = ok-injective (rw present at h) in
          rw (sym same) (Grown-refl pool reg (λ z. ground (arith, z))))
  ]

  alloc-empty :
      (pool pool' : ExecPool)
      → alloc_new_region pool ≡ ok pool'
      → pool'.current_alloc_utilization ≡ 0
  unfolding alloc_new_region
  alloc-empty pool pool' h =
      let (r, e, e') = ok-bind (unwrap (p.mmap pool)) (λ r. ok (with_region pool r)) pool' h in
      rw (sym (ok-injective e')) refl

  -- The encoding again, for a new region.
  place-new :
      (instrs : List Call) (pool pool' : ExecPool) (enc' : Encoded)
      → Regions pool
      → Small p instrs
      → ◌>>=◌ {B = ExecPool × Encoded} (alloc_new_region pool) (λ q.
        ◌>>=◌ {B = ExecPool × Encoded} (unwrap (p.encode instrs q.current_alloc)) (λ e. ok (q, e)))
        ≡ ok (pool', enc')
      → Grown pool pool'
        × (pool'.current_alloc_utilization + length enc'.code_buffer ≤ executable_alloc_size)
  place-new instrs pool pool' enc' reg small h =
      let (q, allocated, rest) = ok-bind (alloc_new_region pool) _ (pool', enc') h in
      let (e, encoded, done) =
        ok-bind (unwrap (p.encode instrs q.current_alloc)) _ (pool', enc') rest in
      let result = ok-injective done in
      let same : q ≡ pool' = ap (λ (r : ExecPool × Encoded). r.0) result in
      let code : e ≡ enc' = ap (λ (r : ExecPool × Encoded). r.1) result in
      let bound = small q.current_alloc e (ok-unwrap _ e encoded) in
      let empty = alloc-empty pool q allocated in
      rw (sym same, sym code) (alloc-Grown pool q reg allocated, omega arith)

  pub place-Grown :
      (instrs : List Call) (pool pool' : ExecPool) (enc enc' : Encoded)
      → Regions pool
      → pool.current_alloc ≢ 0
      → Small p instrs
      → place instrs pool enc ≡ ok (pool', enc')
      → Grown pool pool'
        × (pool'.current_alloc_utilization + length enc'.code_buffer ≤ executable_alloc_size)
  unfolding place
  place-Grown instrs pool pool' enc enc' reg ne small h =
      elim (Bool-cases
        (ltb executable_alloc_size (length enc.code_buffer + pool.current_alloc_utilization))) [
          | inl full ↦ place-new instrs pool pool' enc' reg small (rw full at h)
          | inr fits ↦
              (let result = ok-injective (rw fits at h) in
                let same : pool ≡ pool' = ap (λ (r : ExecPool × Encoded). r.0) result in
                let code : enc ≡ enc' = ap (λ (r : ExecPool × Encoded). r.1) result in
                rw (sym same, sym code) (Grown-refl pool reg ne, ground arith))
        ]
