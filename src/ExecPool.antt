-- ===== src/ExecPool.antt =====
-- src/runner.rs: the pool of compiled chunks. The hash map from chunk addresses to chunks is an
-- association list; a pointer is an address, 0 for null.
pub mod Ranges
use xob.Base.{
  ℕ, ◌-◌, ◌*◌, ◌%◌, Bool, false, ◌&&◌, ◌||◌, List, [], ◌∷◌, ◌++◌, Option, none, some, ltb, leb,
  ◌==◌, if◌then◌else◌,
}

abbrev pub chunk_size : ℕ
chunk_size = 512

abbrev pub executable_alloc_size : ℕ
executable_alloc_size = 1024 * 16

abbrev pub shadow_stack_size : ℕ
shadow_stack_size = 4096

pub record ExecutableRange : Type 0 where
  pub start : ℕ
  pub stop : ℕ

pub record CompiledChunk : Type 0 where
  pub instr_map : List ℕ
  pub addr : ℕ
  pub len : ℕ

abbrev pub ChunkMap : Type 0
ChunkMap = List (ℕ × CompiledChunk)

-- `code` stands for what has been copied into the regions: an address and the bytes of each copy, the
-- last copy first.
pub record ExecPool : Type 0 where
  pub exec_ranges : List ExecutableRange
  pub executable_map : ChunkMap
  pub fully_used_allocs : List ℕ
  pub current_alloc : ℕ
  pub current_alloc_utilization : ℕ
  pub code : List (ℕ × List ℕ)

-- `executable_map.get(&chunk_addr)`
unfoldable pub get_chunk : ChunkMap → ℕ → Option CompiledChunk
get_chunk [] k = none
get_chunk ((j, c) ∷ m) k = if j == k then some c else get_chunk m k

-- `executable_map.insert(chunk_addr, chunk)` at a key that is not there.
unfoldable pub insert_chunk : ChunkMap → ℕ → CompiledChunk → ChunkMap
insert_chunk m k c = (k, c) ∷ m

unfoldable pub any_range : List ExecutableRange → ℕ → Bool
any_range [] addr = false
any_range (r ∷ rs) addr = (leb r.start addr && ltb addr r.stop) || any_range rs addr

unfoldable pub is_executable : ExecPool → ℕ → Bool
unfolding any_range
is_executable pool addr = any_range pool.exec_ranges addr

unfoldable pub define_exec_range : ExecPool → ℕ → ℕ → ExecPool
define_exec_range pool start stop = record pool {
  exec_ranges = pool.exec_ranges ++ record { start = start; stop = stop } ∷ [];
}

-- `addr % CHUNK_SIZE` and the address of the chunk around `addr`.
abbrev pub chunk_offset : ℕ → ℕ
chunk_offset addr = addr % chunk_size

abbrev pub chunk_start : ℕ → ℕ
chunk_start addr = addr - addr % chunk_size

-- The addresses of the callbacks (src/runner/callbacks.rs) in the running program.
pub record Callbacks : Type 0 where
  pub invalid_arm_instr : ℕ
  pub unimplemented_arm_instr_landing_pad : ℕ
  pub rewrite_branch_landing_pad : ℕ
  pub indirect_jump_landing_pad : ℕ
  pub end_of_chunk_landing_pad : ℕ
