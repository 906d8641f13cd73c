-- ===== src/Compiler.antt =====
-- src/runner/compiler.rs: an instruction, and a chunk of 128 instructions, as assembler calls.
pub mod Labels
pub mod Appends
pub mod Dump
pub mod Indices
use xob.Base.{
  ℕ, zero, suc, ◌/◌, Bool, true, false, List, [], ◌∷◌, Option, none, some, if◌then◌else◌,
}
use xob.Outcome.{Outcome, err, panic, CompileError}
use xob.Vendor.{Vendor}
use xob.Vendor.Bad64
use xob.Vendor.Iced.{Call}
use xob.ExecPool.{ChunkMap, Callbacks, chunk_size}
use xob.InstrUtils.{make_call}
use xob.LoadStore
use xob.Arith
use xob.Branch
use xob.Pauth
use xob.Assembler.{
  Asm, pure, lift, fault, create_label, set_label, zero_bytes, unwrapped, ◌>>=◌, ◌>>◌,
}

-- An entry of `bad64::disasm`: `none` is a decoding error.
abbrev pub Decoded : Type 0
Decoded = Option Bad64.Instruction

-- `if first()? { return Ok(()) }`, then the rest.
abbrev pub or_else : Asm Bool → Asm (Unit {0}) → Asm (Unit {0})
or_else first rest = first >>= λ done. if done then pure tt else rest

-- `ass.instructions().len()`: labels are not instructions.
abbrev pub is_instruction : Call → Bool
is_instruction (Call.add_instruction _) = true
is_instruction (Call.asm _ _) = true
is_instruction Call.zero_bytes = true
is_instruction _ = false

unfoldable pub instructions_len : List Call → ℕ
instructions_len [] = 0
instructions_len (c ∷ cs) =
    let rest = instructions_len cs in if is_instruction c then suc rest else rest

module _ ⦃v : Vendor⦄ ⦃cb : Callbacks⦄ where
  unfoldable pub compile_decoded : ChunkMap → ℕ → Bad64.Instruction → Asm (Unit {0})
  compile_decoded chunks chunk_addr arm_instr = or_else (LoadStore.compile_instr arm_instr) (
      or_else (Arith.compile_instr arm_instr) (
        or_else (Branch.compile_instr chunks chunk_addr arm_instr)
          (or_else (Pauth.compile_instr arm_instr) (fault CompileError.unsupported_instruction))))

  unfoldable pub compile_instr : ChunkMap → ℕ → Decoded → Asm (Unit {0})
  unfolding compile_decoded
  compile_instr chunks chunk_addr none = fault CompileError.invalid_instruction
  compile_instr chunks chunk_addr (some arm_instr) = compile_decoded chunks chunk_addr arm_instr

  -- What `compile_chunk` does with the result of `compile_instr`.
  unfoldable pub recover : Outcome (Unit {0}) → Asm (Unit {0})
  recover (err CompileError.invalid_instruction) = unwrapped (make_call cb.invalid_arm_instr)
  recover (err CompileError.unsupported_instruction) =
      unwrapped (make_call cb.unimplemented_arm_instr_landing_pad)
  recover result = unwrapped (lift result)

  unfoldable pub compile_or_call : ChunkMap → ℕ → Decoded → Asm (Unit {0})
  unfolding recover
  compile_or_call chunks chunk_addr arm_instr a =
      recover (compile_instr chunks chunk_addr arm_instr a).0
        (compile_instr chunks chunk_addr arm_instr a).1

  -- One round of the loop: the index of the first x86 instruction, the label, the instruction.
  unfoldable pub compile_entry : ChunkMap → ℕ → Decoded → ℕ → Asm ℕ
  unfolding compile_or_call instructions_len
  compile_entry chunks chunk_addr arm_instr label a =
      (do
        unwrapped (set_label label)
        unwrapped zero_bytes
        compile_or_call chunks chunk_addr arm_instr
        pure (instructions_len a.calls))
        a

  -- The loop, over the instructions and the labels made for them.
  unfoldable pub compile_entries : ChunkMap → ℕ → List Decoded → List ℕ → Asm (List ℕ)
  unfolding compile_entry
  compile_entries chunks chunk_addr [] labels = pure []
  compile_entries chunks chunk_addr (i ∷ is) [] = lift panic
  compile_entries chunks chunk_addr (i ∷ is) (l ∷ ls) = do
    x86_idx ← compile_entry chunks chunk_addr i l
    x86_idxs ← compile_entries chunks chunk_addr is ls
    pure (x86_idx ∷ x86_idxs)

  unfoldable pub create_labels : ℕ → Asm (List ℕ)
  create_labels zero = pure []
  create_labels (suc n) = do l ← create_label; ls ← create_labels n; pure (l ∷ ls)

  abbrev pub instrs_per_chunk : ℕ
  instrs_per_chunk = chunk_size / 4

  -- The calls of a whole chunk, with the index of the first x86 instruction of each entry.
  unfoldable pub compile_entries_of : ChunkMap → ℕ → List Decoded → Asm (List ℕ)
  unfolding compile_entries create_labels
  compile_entries_of chunks chunk_addr arm_instrs = do
    labels ← unwrapped (create_labels instrs_per_chunk)
    x86_idxs ← compile_entries chunks chunk_addr arm_instrs labels
    unwrapped (make_call cb.end_of_chunk_landing_pad)
    pure x86_idxs
