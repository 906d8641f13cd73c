-- ===== src/Loader/Laws.antt =====
-- What `mmap` and `memset` are documented to do, for the theorems about src/loader.rs.
use xob.Base.{
  Bool, true, false, ℕ, ◌+◌, ◌*◌, ◌^◌, ◌≤◌, ◌<◌, ◌≡◌, ◌⊎◌, ◌&&◌, ◌||◌, some, leb, ltb,
  if◌then◌else◌,
}
use xob.ExecPool.{ExecPool, is_executable}
use xob.Memory.{Memory}
use xob.Loader.{Segment, aligned_addr, Os, Mapping, MapFlags}

-- Whether `mmap` must take the address that it is given.
abbrev pub is_fixed : MapFlags → Bool
is_fixed MapFlags.anonymous = false
is_fixed _ = true

-- `contents` is the byte of each open file at each position.
pub record OsLaws (os : Os) (contents : ℕ → ℕ → ℕ) : Type 0 where
  pub page_bits : ℕ
  pub page_is_power : os.page_size ≡ 2 ^ page_bits
  pub at_hint :
      (m m' : Memory) (c : Mapping) (a : ℕ)
      → is_fixed c.flags ≡ true
      → os.mmap m c ≡ some (m', a)
      → a ≡ c.addr
  pub page_aligned :
      (m m' : Memory) (c : Mapping) (a : ℕ)
      → os.mmap m c ≡ some (m', a)
      → (q : ℕ) × (a ≡ q * os.page_size)
  pub maps_file :
      (m m' : Memory) (c : Mapping) (a fd x : ℕ)
      → os.mmap m c ≡ some (m', a)
      → c.fd ≡ some fd
      → x < c.len
      → m' (a + x) ≡ contents fd (c.offset + x)
  -- Nothing changes outside the pages of the mapping.
  pub maps_pages :
      (m m' : Memory) (c : Mapping) (a q x : ℕ)
      → os.mmap m c ≡ some (m', a)
      → a + c.len ≤ q * os.page_size
      → (x < a) ⊎ (q * os.page_size ≤ x)
      → m' x ≡ m x
  pub memset_fills :
      (m : Memory) (start value n x : ℕ)
      → os.memset m start value n x ≡ (if leb start x && ltb x (start + n) then value else m x)

-- What loading a segment of file `fd` at a base address means for memory and for the ranges of
-- emulated code. `q` counts pages: its multiple ends the last page of the segment.
pub record Loaded (os : Os) (contents : ℕ → ℕ → ℕ) (segment : Segment) (fd base_addr : ℕ)
    (m m' : Memory) (pool pool' : ExecPool) : Type 0 where
  pub file_part :
      (x : ℕ)
      → x < segment.file_size
      → m' (base_addr + segment.address + x) ≡ contents fd (segment.file_offset + x)
  pub zero_part :
      (x : ℕ) → segment.file_size ≤ x → x < segment.size → m' (base_addr + segment.address + x) ≡ 0
  pub outside :
      (q x : ℕ)
      → base_addr + segment.address + segment.size ≤ q * os.page_size
      → (x < aligned_addr ⦃os = os⦄ segment base_addr) ⊎ (q * os.page_size ≤ x)
      → (m' x ≡ m x) × (is_executable pool' x ≡ is_executable pool x)
  pub code :
      (x : ℕ)
      → x < segment.size
      → is_executable pool' (base_addr + segment.address + x)
        ≡ (is_executable pool (base_addr + segment.address + x) || segment.executable)
  pub inert : segment.executable ≡ false → pool' ≡ pool
