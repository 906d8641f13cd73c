-- ===== src/Loader/AllSegments.antt =====
-- The loop of src/loader.rs over the segments of an object.
use xob.Base.{ℕ, ◌+◌, ◌*◌, ◌^◌, ◌≤◌, ◌<◌, ◌≡◌, true, List, [], ◌∷◌, some, arith, ◌∙◌, refl, inl}
use xob.Outcome.{ok}
use xob.ExecPool.{ExecPool, is_executable}
use xob.Memory.{Memory}
use xob.Loader.{Os, Segment, page_offset, aligned_addr, file_mapping, load_segments}
use xob.Loader.Laws.{OsLaws, Loaded}
use xob.Loader.Segments.{load_segment-Loaded}

abbrev pub Every : (Segment → Type 0) → List Segment → Type 0
Every P [] = Unit {0}
Every P (s ∷ ss) = P s × Every P ss

pub Every-map :
    (P Q : Segment → Type 0) (ss : List Segment)
    → ((s : Segment) → P s → Q s)
    → Every P ss
    → Every Q ss
Every-map P Q [] f ps = tt
Every-map P Q (s ∷ ss) f (p, ps) = (f s p, Every-map P Q ss f ps)

module _ (os : Os) (fd base_addr : ℕ) where
  -- The kernel maps the file of the segment, whatever is in memory.
  pub record Loadable (segment : Segment) : Type 0 where
    pub shorter : segment.file_size ≤ segment.size
    pub fits : base_addr + segment.address + segment.size + os.page_size ≤ 2 ^ 64
    pub covered : page_offset ⦃os = os⦄ segment base_addr ≤ segment.file_offset
    pub accepted :
        (m : Memory)
        → (mapped : Memory) × (a : ℕ) × (os.mmap m (file_mapping ⦃os = os⦄ segment fd base_addr)
            ≡ some (mapped, a))

  -- Each segment ends on a page below the mappings of those that follow.
  abbrev pub InOrder : List Segment → Type 0
  InOrder [] = Unit {0}
  InOrder (s ∷ ss) =
      ((q : ℕ) × (base_addr + s.address + s.size ≤ q * os.page_size)
        × Every (λ t. q * os.page_size ≤ aligned_addr ⦃os = os⦄ t base_addr) ss)
      × InOrder ss

  -- The bytes of the file, zeros behind them, and the addresses of code.
  pub record Present (contents : ℕ → ℕ → ℕ) (m : Memory) (pool : ExecPool) (segment : Segment)
      : Type 0 where
    pub file_part :
        (x : ℕ)
        → x < segment.file_size
        → m (base_addr + segment.address + x) ≡ contents fd (segment.file_offset + x)
    pub zero_part :
        (x : ℕ) → segment.file_size ≤ x → x < segment.size → m (base_addr + segment.address + x) ≡ 0
    pub code :
        (x : ℕ)
        → x < segment.size
        → segment.executable ≡ true
        → is_executable pool (base_addr + segment.address + x) ≡ true

  -- What loading segments at or above `lo` does below `lo`: nothing.
  abbrev pub Untouched : List Segment → Memory → Memory → ExecPool → ExecPool → Type 0
  Untouched ss m m' pool pool' =
      (lo x : ℕ)
      → Every (λ t. lo ≤ aligned_addr ⦃os = os⦄ t base_addr) ss
      → x < lo
      → (m' x ≡ m x) × (is_executable pool' x ≡ is_executable pool x)

module _ ⦃os : Os⦄ {contents : ℕ → ℕ → ℕ} (laws : OsLaws os contents) (fd base_addr : ℕ) where
  Loaded-Present :
      (segment : Segment) (m m' m'' : Memory) (pool pool' pool'' : ExecPool) (lo : ℕ)
      → segment.file_size ≤ segment.size
      → base_addr + segment.address + segment.size ≤ lo
      → Loaded os contents segment fd base_addr m m' pool pool'
      → ((x : ℕ) → x < lo → (m'' x ≡ m' x) × (is_executable pool'' x ≡ is_executable pool' x))
      → Present os fd base_addr contents m'' pool'' segment
  Loaded-Present segment m m' m'' pool pool' pool'' lo shorter below loaded kept = record {
    file_part =
        λ x lt. (kept (base_addr + segment.address + x) (omega arith)).0 ∙ loaded.file_part x lt;
    zero_part = λ x ge lt.
        (kept (base_addr + segment.address + x) (omega arith)).0 ∙ loaded.zero_part x ge lt;
    code = λ x lt e.
        let same = (kept (base_addr + segment.address + x) (omega arith)).1 in
        ground (arith, same, loaded.code x lt, e);
  }

  -- Where the kernel grants the mapping of every segment, each is well formed, and each ends on a page
  -- below the mappings of those after it, the loop returns. At its end every segment is present: the
  -- bytes of the file, zeros behind them, and the addresses of an executable one as code; below all
  -- the mappings, neither memory nor what is code has changed.
  pub load_segments-Present :
      (m : Memory) (pool : ExecPool) (segments : List Segment)
      → Every (Loadable os fd base_addr) segments
      → InOrder os fd base_addr segments
      → (m' : Memory) × (pool' : ExecPool) × (load_segments m pool segments fd base_addr
          ≡ ok (m', pool'))
        × Every (Present os fd base_addr contents m' pool') segments
        × Untouched os fd base_addr segments m m' pool pool'
  unfolding load_segments
  load_segments-Present m pool [] loadable order = (m, pool, refl, tt, λ lo x h lt. (refl, refl))
  load_segments-Present m pool (s ∷ ss) (l, loadable) ((q, end, above), order) =
      let (mapped, a, done) = l.accepted m in
      let (m1, pool1, e1, loaded) =
        load_segment-Loaded laws m mapped pool s fd base_addr a l.shorter l.fits l.covered done in
      let (m2, pool2, e2, present, untouched) = load_segments-Present m1 pool1 ss loadable order in
      let first =
        Loaded-Present s m m1 m2 pool pool1 pool2 (q * os.page_size) l.shorter end loaded
          (λ x lt. untouched (q * os.page_size) x above lt) in
      (
        m2,
        pool2,
        rw (e1, e2) refl,
        (first, present),
        λ lo x (low, lows) lt.
            let (mem, exec) = untouched lo x lows lt in
            let (mem', exec') = loaded.outside q x end (inl (omega (arith, low, lt))) in
            (mem ∙ mem', exec ∙ exec'),
      )
