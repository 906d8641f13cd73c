-- ===== src/Callbacks/EndOfChunk.antt =====
-- `end_of_chunk` of src/runner/callbacks.rs: from the end of one chunk to the next.
use xob.Base.{
  ℕ, zero, suc, ◌+◌, ◌-◌, ◌%◌, ◌^◌, ◌≤◌, ◌<◌, ◌≡◌, refl, ap, ◌∙◌, arith, List, [], ◌∷◌, Option,
  some, length,
}
use xob.Outcome.{ok}
use xob.Memory.{Memory, write_bytes}
use xob.Vendor.{Vendor}
use xob.Vendor.Bad64
use xob.ExecPool.{ExecPool, CompiledChunk, Callbacks, chunk_size, get_chunk}
use xob.Compiler.{Decoded, instrs_per_chunk}
use xob.Finalize.{Platform, Encoded}
use xob.Machine.{Accepting}
use xob.Runner.{get_exec, from_exec, find_offset}
use xob.Runner.FromExec.{Apart, from_exec-chunk}
use xob.Runner.Offsets.{Entry, find_offset-LastAtMost, find_offset-IsSome}
use xob.Callbacks.{new_code, copy_code, call_before, jump_on, end_of_chunk}
use xob.Callbacks.Patches.{jump_calls, write_jump-returns}

Entry-bound : (os : List ℕ) (i o : ℕ) → Entry os i o → i < length os
Entry-bound [] i o e = cc
Entry-bound (x ∷ xs) zero o e = omega arith
Entry-bound (x ∷ xs) (suc i) o e = let le = Entry-bound xs i o e in omega arith

-- An offset at or behind the last entry belongs to it.
find_offset-last :
    (os : List ℕ) (i o offset : ℕ)
    → Entry os i o
    → length os ≡ suc i
    → o ≤ offset
    → find_offset os offset ≡ some i
find_offset-last os i o offset here all le =
    let (j, found, ge) = find_offset-IsSome os offset i o here le in
    let l = find_offset-LastAtMost os offset j found in
    let lt = Entry-bound os j l.offset l.found in
    let same : j ≡ i = omega arith in found ∙ ap some same

module _ ⦃v : Vendor⦄ ⦃cb : Callbacks⦄ ⦃p : Platform⦄ (acc : Accepting v)
    (disasm : ℕ → List Decoded) (decode : ℕ → ℕ → Option Bad64.Instruction) where
  last_instruction :
      (pool : ExecPool) (k o offset : ℕ) (c : CompiledChunk)
      → Apart pool.executable_map
      → get_chunk pool.executable_map k ≡ some c
      → Entry c.instr_map 127 o
      → length c.instr_map ≡ instrs_per_chunk
      → o ≤ offset
      → offset < c.len
      → from_exec pool.executable_map (c.addr + offset) ≡ ok (k + 508)
  last_instruction pool k o offset c apart cached last all le lt =
      let cancel : c.addr + offset - c.addr ≡ offset = omega arith in
      from_exec-chunk pool.executable_map k c (c.addr + offset) apart cached (ground arith)
      ∙ rw (cancel, find_offset-last c.instr_map 127 o offset last all le) refl

  -- Where iced refuses nothing: a call at the end of a cached chunk, behind the start of its last
  -- instruction, with `get_exec` giving the address of the next chunk's first instruction and the
  -- encoder 12 bytes for the jump there. Then `end_of_chunk` returns that address and the pool of
  -- `get_exec`, with the code that this has compiled copied to memory, and the jump in place of the
  -- call.
  pub end_of_chunk-next_chunk :
      (m : Memory) (pool pool' : ExecPool) (k o offset exec_ptr : ℕ) (c : CompiledChunk)
      (code : Encoded)
      → Apart pool.executable_map
      → get_chunk pool.executable_map k ≡ some c
      → Entry c.instr_map 127 o
      → length c.instr_map ≡ instrs_per_chunk
      → o ≤ offset
      → offset < c.len
      → c.addr + offset + 12 < 2 ^ 64
      → k + chunk_size < 2 ^ 64
      → get_exec disasm pool (k + chunk_size) ≡ ok (pool', exec_ptr)
      → p.encode (jump_calls exec_ptr) (c.addr + offset) ≡ some code
      → length code.code_buffer ≡ 12
      → end_of_chunk disasm decode m pool (c.addr + offset + 12)
        ≡ ok (
          write_bytes (copy_code (new_code pool pool') m) (c.addr + offset) code.code_buffer,
          pool',
          exec_ptr,
        )
  unfolding end_of_chunk jump_on
  end_of_chunk-next_chunk m pool pool' k o offset exec_ptr c code apart cached last all le lt high
        below next encoded whole =
      let at : call_before (c.addr + offset + 12) ≡ c.addr + offset = omega arith in
      let then_next : (k + 508 + 4) % 2 ^ 64 ≡ k + chunk_size = omega arith in
      rw
        (
          at,
          last_instruction pool k o offset c apart cached last all le lt,
          then_next,
          next,
          write_jump-returns acc (copy_code (new_code pool pool') m) (c.addr + offset) exec_ptr code
              encoded whole,
        )
        refl
