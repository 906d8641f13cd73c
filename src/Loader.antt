-- ===== src/Loader.antt =====
-- src/loader.rs: how the segments of an ELF file get into memory. The calls of the kernel, and
-- `memset` of libc, are the fields of `Os`.
pub mod Align
pub mod Laws
pub mod Segments
pub mod AllSegments
pub mod BaseAddr
pub mod Symbols
pub mod Relocations
pub mod InitFini
pub mod Object
pub mod Placed
pub mod Linked
pub mod Joined
use Prim.Native.Nat.{max, bit_and}
use xob.Base.{
  ℕ, zero, suc, ◌+◌, ◌-◌, ◌*◌, ◌%◌, ◌^◌, ◌≤◌, Bool, List, [], ◌∷◌, Option, none, some, ltb, leb,
  ◌==◌, if◌then◌else◌,
}
use xob.Outcome.{Outcome, ok, panic, unwrap, ◌>>=◌}
use xob.Words.{not64}
use xob.Memory.{Memory}
use xob.ExecPool.{ExecPool, define_exec_range}

-- The `prot` bits of a mapping.
pub record Prot : Type 0 where
  pub writable : Bool
  pub readable : Bool

-- `MAP_FIXED_NOREPLACE`, `MAP_ANONYMOUS | MAP_FIXED` and `MAP_ANONYMOUS`, all with `MAP_PRIVATE`.
pub data MapFlags : Type 0 where
  fixed_noreplace anonymous_fixed anonymous : MapFlags

-- The arguments of `mmap`; no file descriptor for -1.
pub record Mapping : Type 0 where
  pub addr : ℕ
  pub len : ℕ
  pub prot : Prot
  pub flags : MapFlags
  pub fd : Option ℕ
  pub offset : ℕ

-- A mapping gives memory and the address, or fails.
pub record Os : Type 0 where
  pub page_size : ℕ
  pub mmap : Memory → Mapping → Option (Memory × ℕ)
  pub munmap : Memory → ℕ → ℕ → Memory
  pub memset : Memory → ℕ → ℕ → ℕ → Memory

-- `ElfSegment64`, as far as the loader reads it.
pub record Segment : Type 0 where
  pub address : ℕ
  pub size : ℕ
  pub align : ℕ
  pub file_offset : ℕ
  pub file_size : ℕ
  pub writable : Bool
  pub readable : Bool
  pub executable : Bool

unfoldable pub align_to_next : ℕ → ℕ → ℕ
align_to_next addr alignment = bit_and ((addr + alignment - 1) % 2 ^ 64) (not64 (alignment - 1))

abbrev pub segment_prot : Segment → Prot
segment_prot segment = record { writable = segment.writable; readable = segment.readable }

abbrev pub anonymous_mapping : ℕ → ℕ → Prot → Mapping
anonymous_mapping start len prot = record {
  addr = start;
  len = len;
  prot = prot;
  flags = MapFlags.anonymous_fixed;
  fd = none;
  offset = 0;
}

-- The alignment of the first segment at address 0.
unfoldable pub base_segment_align : List Segment → Option ℕ
base_segment_align [] = none
base_segment_align (segment ∷ segments) =
    if segment.address == 0 then some segment.align else base_segment_align segments

unfoldable pub segments_end : List Segment → ℕ
segments_end [] = 0
segments_end (segment ∷ segments) = max (segment.address + segment.size) (segments_end segments)

unfoldable pub define_code : ExecPool → Segment → ℕ → ℕ → ExecPool
define_code pool segment start stop =
    if segment.executable then define_exec_range pool start stop else pool

module _ ⦃os : Os⦄ where
  abbrev pub segment_alignment : Segment → ℕ
  segment_alignment segment = max segment.align os.page_size

  -- How far the segment starts after the mapping.
  abbrev pub page_offset : Segment → ℕ → ℕ
  page_offset segment base_addr = (base_addr + segment.address) % segment_alignment segment

  abbrev pub aligned_addr : Segment → ℕ → ℕ
  aligned_addr segment base_addr = base_addr + segment.address - page_offset segment base_addr

  -- The mapping of the file, where `file_offset` is not below the page offset.
  unfoldable pub file_mapping : Segment → ℕ → ℕ → Mapping
  file_mapping segment fd base_addr = record {
    addr = aligned_addr segment base_addr;
    len = page_offset segment base_addr + segment.size;
    prot = segment_prot segment;
    flags = MapFlags.fixed_noreplace;
    fd = some fd;
    offset = segment.file_offset - page_offset segment base_addr;
  }

  -- The anonymous mapping, whose result the loader does not look at.
  unfoldable pub map_anonymous : Memory → ℕ → ℕ → Prot → Memory
  map_anonymous memory start len prot = elim (os.mmap memory (anonymous_mapping start len prot)) [
    | none ↦ memory
    | some (mapped, at) ↦ mapped
  ]

  -- Zeros from the end of the file to the end of the mapping.
  unfoldable pub zero_out : Memory → ℕ → ℕ → Prot → Memory
  unfolding map_anonymous
  zero_out memory file_load_end mapping_end prot =
      let page_break = align_to_next file_load_end os.page_size in
      let cleared = os.memset memory file_load_end 0 (page_break - file_load_end) in
      if ltb page_break mapping_end
      then os.memset (map_anonymous cleared page_break (mapping_end - page_break) prot) page_break 0
          (mapping_end - page_break)
      else cleared

  unfoldable pub fill_rest : Memory → Segment → ℕ → ℕ → Memory
  unfolding zero_out
  fill_rest memory segment file_load_end mapping_end =
      if ltb segment.file_size segment.size
      then zero_out memory file_load_end mapping_end (segment_prot segment)
      else memory

  unfoldable pub load_segment : Memory → ExecPool → Segment → ℕ → ℕ → Outcome (Memory × ExecPool)
  unfolding fill_rest define_code file_mapping
  load_segment memory pool segment fd base_addr =
      if ltb segment.file_offset (page_offset segment base_addr) then panic else (do
        (mapped, mapped_addr) ← unwrap (os.mmap memory (file_mapping segment fd base_addr))
        let mapping_end =
            align_to_next (mapped_addr + (page_offset segment base_addr + segment.size))
              os.page_size
        let file_load_end = mapped_addr + page_offset segment base_addr + segment.file_size
        let filled = fill_rest mapped segment file_load_end mapping_end
        ok (filled, define_code pool segment mapped_addr mapping_end))

  -- The loop over the segments.
  unfoldable pub load_segments :
      Memory → ExecPool → List Segment → ℕ → ℕ → Outcome (Memory × ExecPool)
  unfolding load_segment
  load_segments memory pool [] fd base_addr = ok (memory, pool)
  load_segments memory pool (segment ∷ segments) fd base_addr = do
    (memory', pool') ← load_segment memory pool segment fd base_addr
    load_segments memory' pool' segments fd base_addr

  -- How much address space is reserved to find a place for the segments.
  unfoldable pub reserved_size : List Segment → ℕ → ℕ
  unfolding segments_end align_to_next
  reserved_size segments base_alignment =
      align_to_next (segments_end segments) os.page_size + base_alignment - os.page_size

  unfoldable pub reservation : List Segment → ℕ → Mapping
  unfolding reserved_size
  reservation segments base_alignment = record {
    addr = 0;
    len = reserved_size segments base_alignment;
    prot = record { writable = Bool.false; readable = Bool.false };
    flags = MapFlags.anonymous;
    fd = none;
    offset = 0;
  }

  unfoldable pub generate_suitable_base_addr : Memory → List Segment → Outcome (Memory × ℕ)
  unfolding base_segment_align reservation
  generate_suitable_base_addr memory segments = do
    align ← unwrap (base_segment_align segments)
    let base_alignment = max align os.page_size
    (mapped, mapped_addr) ← unwrap (os.mmap memory (reservation segments base_alignment))
    let unmapped = os.munmap mapped mapped_addr (reserved_size segments base_alignment)
    ok (unmapped, align_to_next mapped_addr base_alignment)
