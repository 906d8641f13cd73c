-- ===== src/Runner.antt =====
-- src/runner.rs: the translation of code addresses, from AArch64 to x86-64 and back.
pub mod Offsets
pub mod FromExec
pub mod Cache
pub mod Jumps
pub mod GetExec
pub mod Ordered
pub mod CallAsm
use xob.Base.{
  ℕ, suc, ◌+◌, ◌-◌, ◌*◌, ◌/◌, Bool, ◌&&◌, List, [], ◌∷◌, Option, none, some, ltb, leb,
  if◌then◌else◌,
}
use xob.Outcome.{Outcome, ok, panic, unwrap, index, ◌>>=◌}
use xob.Vendor.{Vendor}
use xob.ExecPool.{
  ExecPool, ChunkMap, CompiledChunk, Callbacks, get_chunk, insert_chunk, is_executable,
  chunk_offset, chunk_start,
}
use xob.Vendor.Iced.{Call}
use xob.Assembler.{Assembler}
use xob.Compiler.{Decoded, compile_entries_of, instrs_per_chunk}
use xob.Finalize.{Platform, finalize_ass, finalize_chunk}

abbrev pub new_assembler : Assembler
new_assembler = record { calls = []; labels = 0 }

module _ ⦃v : Vendor⦄ ⦃cb : Callbacks⦄ ⦃p : Platform⦄ where
  -- `disasm` gives the entries of the chunk in memory at an address.
  module _ (disasm : ℕ → List Decoded) where
    unfoldable pub compile_chunk : ExecPool → ℕ → Outcome (ExecPool × CompiledChunk)
    unfolding compile_entries_of finalize_chunk
    compile_chunk pool chunk_addr =
        let run =
          compile_entries_of pool.executable_map chunk_addr (disasm chunk_addr) new_assembler in
        do x86_idxs ← run.0; finalize_chunk pool run.1.calls instrs_per_chunk x86_idxs

    unfoldable pub find_or_compile :
        Option CompiledChunk → ExecPool → ℕ → Outcome (ExecPool × CompiledChunk)
    find_or_compile (some chunk) pool chunk_addr = ok (pool, chunk)
    find_or_compile none pool chunk_addr = do
      (pool', chunk) ← compile_chunk pool chunk_addr
      ok (
        record pool' { executable_map = insert_chunk pool'.executable_map chunk_addr chunk },
        chunk,
      )

    -- An address outside the emulated code is returned as it is.
    unfoldable pub get_exec : ExecPool → ℕ → Outcome (ExecPool × ℕ)
    unfolding find_or_compile
    get_exec pool addr =
        if is_executable pool addr
        then (do
          (pool', chunk) ←
              find_or_compile (get_chunk pool.executable_map (chunk_start addr)) pool
                (chunk_start addr)
          byte_idx ← index chunk.instr_map (chunk_offset addr / 4)
          ok (pool', chunk.addr + byte_idx))
        else ok (pool, addr)

-- Code that is no chunk.
unfoldable pub alloc_code : ⦃p : Platform⦄ → ExecPool → List Call → Outcome (ExecPool × ℕ)
unfolding finalize_ass
alloc_code pool instrs = do (pool', target, enc) ← finalize_ass pool instrs; ok (pool', target)

-- The largest index whose offset is not above `offset`: the scan from the end of the map.
abbrev pub next_offset : Option ℕ → ℕ → ℕ → Option ℕ
next_offset (some i) o offset = some (suc i)
next_offset none o offset = if leb o offset then some 0 else none

unfoldable pub find_offset : List ℕ → ℕ → Option ℕ
find_offset [] offset = none
find_offset (o ∷ os) offset = next_offset (find_offset os offset) o offset

abbrev pub in_chunk : CompiledChunk → ℕ → Bool
in_chunk chunk addr = leb chunk.addr addr && ltb addr (chunk.addr + chunk.len)

unfoldable pub from_exec : ChunkMap → ℕ → Outcome ℕ
unfolding find_offset
from_exec [] addr = panic
from_exec ((chunk_arm_addr, chunk) ∷ m) addr =
    if in_chunk chunk addr
    then (do
      arm_offset ← unwrap (find_offset chunk.instr_map (addr - chunk.addr))
      ok (chunk_arm_addr + arm_offset * 4))
    else from_exec m addr
