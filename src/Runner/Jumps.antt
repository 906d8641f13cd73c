-- ===== src/Runner/Jumps.antt =====
-- Branches out of a chunk against `get_exec`: `make_jump` of src/runner/compiler/branch.rs and
-- src/runner.rs.
use xob.Base.{
  ℕ, ◌+◌, ◌/◌, ◌≤◌, ◌<◌, ◌≡◌, ◌⊎◌, ◌&&◌, false, List, [], ◌∷◌, leb, ltb, arith, append_assoc,
}
use xob.Outcome.{ok}
use xob.Vendor.{Vendor}
use xob.Vendor.Iced.{Call, Mnemonic, Arg, rax}
use xob.ExecPool.{ExecPool, Callbacks, chunk_size, chunk_offset}
use xob.Assembler.{Assembler}
use xob.Branch.{jump_to, far_jump}
use xob.Compiler.{Decoded}
use xob.Finalize.{Platform}
use xob.Machine.{Accepting, Emits}
use xob.Machine.Emit.{asm-Emits}
use xob.Runner.{get_exec}
use xob.Runner.FromExec.{Compiled, index-Entry, get_exec-entry}

outside :
    (chunk_addr target : ℕ)
    → (target < chunk_addr) ⊎ (chunk_addr + chunk_size ≤ target)
    → (leb chunk_addr target && ltb target (chunk_addr + chunk_size)) ≡ false
outside chunk_addr target h = ground arith

module _ ⦃v : Vendor⦄ ⦃cb : Callbacks⦄ ⦃p : Platform⦄ (acc : Accepting v)
    (disasm : ℕ → List Decoded) where
  -- Where iced refuses nothing, a branch to a cached instruction of another chunk becomes a jump to the
  -- address that `get_exec` gives for the instruction.
  pub jump_to-get_exec :
      (pool : ExecPool) (chunk_addr target o : ℕ) (a : Assembler)
      → (target < chunk_addr) ⊎ (chunk_addr + chunk_size ≤ target)
      → (c : Compiled pool target o)
      → Emits (jump_to pool.executable_map chunk_addr target) a (
          Call.asm Mnemonic.mov (Arg.reg rax ∷ Arg.imm (c.chunk.addr + o) ∷ [])
          ∷ Call.asm Mnemonic.jmp (Arg.reg rax ∷ [])
          ∷ [])
        × (get_exec disasm pool target ≡ ok (pool, c.chunk.addr + o))
  unfolding jump_to far_jump
  jump_to-get_exec pool chunk_addr target o a away c = (
    rw
        (
          outside chunk_addr target away,
          c.cached,
          index-Entry c.chunk.instr_map (chunk_offset target / 4) o c.entry,
        )
        (simp (asm-Emits acc, append_assoc)),
    get_exec-entry disasm pool target o c,
  )
