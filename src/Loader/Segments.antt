-- ===== src/Loader/Segments.antt =====
-- `load_segment` of src/loader.rs: what is in memory afterwards.
use native.Mathlib.Nat.{mod-le}
use xob.Base.{
  ℕ, ◌+◌, ◌-◌, ◌*◌, ◌^◌, ◌≤◌, ◌<◌, ◌≡◌, ◌⊎◌, inl, inr, ◌&&◌, ◌||◌, false, some, leb, ltb,
  if◌then◌else◌, arith, Bool-cases, leb→le, ltb→lt, Option-cases, refl,
}
use xob.Outcome.{ok}
use xob.ExecPool.{ExecPool, is_executable}
use xob.ExecPool.Ranges.{is_executable-define_exec_range}
use xob.Memory.{Memory}
use xob.Loader.{
  Os, Prot, Segment, align_to_next, page_offset, aligned_addr, segment_alignment, anonymous_mapping,
  fill_rest, define_code, file_mapping, segment_prot, map_anonymous, zero_out, load_segment,
}
use xob.Loader.Align.{IsNextMultiple, align_to_next-IsNextMultiple}
use xob.Loader.Laws.{OsLaws, Loaded}

not_ltb : (a b : ℕ) → b ≤ a → ltb a b ≡ false
not_ltb a b h = ground arith

define_code-read :
    (pool : ExecPool) (segment : Segment) (start stop addr : ℕ)
    → is_executable (define_code pool segment start stop) addr
      ≡ (is_executable pool addr || (segment.executable && (leb start addr && ltb addr stop)))
unfolding define_code
define_code-read pool segment start stop addr =
    let defined = is_executable-define_exec_range pool start stop addr in
    elim (Bool-cases segment.executable) [
      | inl code ↦ rw code defined
      | inr plain ↦ rw plain (ground arith)
    ]

define_code-inert :
    (pool : ExecPool) (segment : Segment) (start stop : ℕ)
    → segment.executable ≡ false
    → define_code pool segment start stop ≡ pool
unfolding define_code
define_code-inert pool segment start stop e = rw e refl

module _ ⦃os : Os⦄ {contents : ℕ → ℕ → ℕ} (laws : OsLaws os contents) where
  pub next_page :
      (n : ℕ)
      → n + os.page_size ≤ 2 ^ 64
      → IsNextMultiple n os.page_size (align_to_next n os.page_size)
  next_page n fits =
      let fits' : n + 2 ^ laws.page_bits ≤ 2 ^ 64 = omega (arith, fits, laws.page_is_power) in
      rw laws.page_is_power (align_to_next-IsNextMultiple n laws.page_bits fits')

  map_anonymous-outside :
      (m : Memory) (start len : ℕ) (prot : Prot) (q x : ℕ)
      → start + len ≤ q * os.page_size
      → (x < start) ⊎ (q * os.page_size ≤ x)
      → map_anonymous m start len prot x ≡ m x
  unfolding map_anonymous
  map_anonymous-outside m start len prot q x fits out =
      let mapping = anonymous_mapping start len prot in
      elim (Option-cases (os.mmap m mapping)) [
        | inl refused ↦ rw (refused, map_anonymous) refl
        | inr ((m', a), done) ↦
            let here = laws.at_hint m m' mapping a refl done in
            rw (done, map_anonymous)
              (laws.maps_pages m m' mapping a q x done (omega (arith, here, fits)) (rw here out))
      ]

  -- Zeros up to the end of the mapping, a multiple of the page size.
  zero_out-read :
      (m : Memory) (file_load_end mapping_end q x : ℕ) (prot : Prot)
      → file_load_end + os.page_size ≤ 2 ^ 64
      → file_load_end ≤ mapping_end
      → mapping_end ≡ q * os.page_size
      → zero_out m file_load_end mapping_end prot x
        ≡ (if leb file_load_end x && ltb x mapping_end then 0 else m x)
  unfolding zero_out
  zero_out-read m file_load_end mapping_end q x prot fits le at =
      let next = next_page file_load_end fits in
      let page_break = align_to_next file_load_end os.page_size in
      let bounded : page_break ≤ mapping_end =
        omega (arith, next.least q (omega (arith, le, at)), at) in
      let above = next.above in
      let len = mapping_end - page_break in
      let cleared = os.memset m file_load_end 0 (page_break - file_load_end) in
      let inner = laws.memset_fills m file_load_end 0 (page_break - file_load_end) x in
      let outer =
        laws.memset_fills (map_anonymous cleared page_break len prot) page_break 0 len x in
      let outside = map_anonymous-outside cleared page_break len prot q x (omega arith) in
      elim (Bool-cases (ltb x page_break)) [
        | inl low ↦
            ground (arith, inner, outer, outside (inl (ltb→lt x page_break low)), bounded, above)
        | inr high ↦ elim (Bool-cases (leb mapping_end x)) [
          | inl out ↦ ground (
            arith,
            inner,
            outer,
            outside (inr (omega (arith, at, leb→le mapping_end x out))),
            bounded,
            above,
          )
          | inr within ↦ ground (arith, inner, outer, bounded, above)
        ]
      ]

  fill_rest-read :
      (m : Memory) (segment : Segment) (file_load_end mapping_end q x : ℕ)
      → file_load_end + os.page_size ≤ 2 ^ 64
      → file_load_end ≤ mapping_end
      → mapping_end ≡ q * os.page_size
      → fill_rest m segment file_load_end mapping_end x ≡ (
          if ltb segment.file_size segment.size && leb file_load_end x && ltb x mapping_end
          then 0
          else m x)
  unfolding fill_rest
  fill_rest-read m segment file_load_end mapping_end q x fits le at =
      let zeros = zero_out-read m file_load_end mapping_end q x (segment_prot segment) fits le at in
      elim (Bool-cases (ltb segment.file_size segment.size)) [
        | inl longer ↦ rw longer zeros
        | inr whole ↦ rw whole refl
      ]

  -- A file that is mapped, with its rest filled with zeros and its code defined.
  mapped-Loaded :
      (m mapped : Memory) (pool : ExecPool) (segment : Segment) (fd base_addr a mapping_end : ℕ)
      → segment.file_size ≤ segment.size
      → base_addr + segment.address + segment.size + os.page_size ≤ 2 ^ 64
      → page_offset segment base_addr ≤ segment.file_offset
      → os.mmap m (file_mapping segment fd base_addr) ≡ some (mapped, a)
      → page_offset segment base_addr ≤ base_addr + segment.address
      → a ≡ aligned_addr segment base_addr
      → IsNextMultiple (a + (page_offset segment base_addr + segment.size)) os.page_size mapping_end
      → Loaded os contents segment fd base_addr m
          (fill_rest mapped segment
            (a + page_offset segment base_addr + segment.file_size)
            mapping_end)
          pool
          (define_code pool segment a mapping_end)
  unfolding file_mapping
  mapped-Loaded m mapped pool segment fd base_addr a mapping_end shorter fits offset done within
        here next =
      let mapping = file_mapping segment fd base_addr in
      let file_load_end = a + page_offset segment base_addr + segment.file_size in
      let bytes = λ (x : ℕ).
        fill_rest-read mapped segment file_load_end mapping_end next.multiple.0 x
          (omega (arith, here, within, fits, shorter)) (omega (arith, shorter, next.above))
          next.multiple.1 in
      let above = next.above in
      record {
        file_part = λ x lt.
            let place : a + (page_offset segment base_addr + x) ≡ base_addr + segment.address + x =
              omega (arith, here, within) in
            let position : segment.file_offset
                  - page_offset segment base_addr
                  + (page_offset segment base_addr + x)
                ≡ segment.file_offset + x =
              omega (arith, offset) in
            let source =
              laws.maps_file m mapped mapping a fd (page_offset segment base_addr + x) done refl
                (omega (arith, lt, shorter)) in
            ground (
              arith,
              bytes (base_addr + segment.address + x),
              place,
              position,
              source,
              here,
              within,
            );
        zero_part =
            λ x ge lt. ground (arith, bytes (base_addr + segment.address + x), here, within, above);
        outside = λ p x fits' out.
            let last = next.least p (omega (arith, here, within, fits')) in
            let kept =
              laws.maps_pages m mapped mapping a p x done (omega (arith, here, within, fits'))
                (rw here out) in
            (
              ground (arith, bytes x, kept, last, out, here, within),
              ground (arith, define_code-read pool segment a mapping_end x, out, last, here),
            );
        code = λ x lt. ground (
          arith,
          define_code-read pool segment a mapping_end (base_addr + segment.address + x),
          here,
          within,
          above,
        );
        inert = λ e. define_code-inert pool segment a mapping_end e;
      }

  -- Where the kernel grants the mapping of the file, whose part is no longer than the segment and
  -- covers its page offset, and the segment ends a page before the end of memory, `load_segment`
  -- returns: the bytes of the file are there and zeros behind them, nothing outside the pages of the
  -- segment has changed, and its addresses are code if and only if they were before or the segment is
  -- executable.
  pub load_segment-Loaded :
      (m mapped : Memory) (pool : ExecPool) (segment : Segment) (fd base_addr a : ℕ)
      → segment.file_size ≤ segment.size
      → base_addr + segment.address + segment.size + os.page_size ≤ 2 ^ 64
      → page_offset segment base_addr ≤ segment.file_offset
      → os.mmap m (file_mapping segment fd base_addr) ≡ some (mapped, a)
      → (m' : Memory) × (pool' : ExecPool) × (load_segment m pool segment fd base_addr
          ≡ ok (m', pool'))
        × Loaded os contents segment fd base_addr m m' pool pool'
  unfolding load_segment file_mapping
  load_segment-Loaded m mapped pool segment fd base_addr a shorter fits offset done =
      let mapping = file_mapping segment fd base_addr in
      let within = mod-le (base_addr + segment.address) (segment_alignment segment) in
      let here : a ≡ aligned_addr segment base_addr = laws.at_hint m mapped mapping a refl done in
      let end = a + (page_offset segment base_addr + segment.size) in
      let mapping_end = align_to_next end os.page_size in
      let next = next_page end (omega (arith, here, within, fits)) in
      (
        fill_rest mapped segment (a + page_offset segment base_addr + segment.file_size)
            mapping_end,
        define_code pool segment a mapping_end,
        rw (not_ltb segment.file_offset (page_offset segment base_addr) offset, done) refl,
        mapped-Loaded m mapped pool segment fd base_addr a mapping_end shorter fits offset done
            within here next,
      )
