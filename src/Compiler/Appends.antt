-- ===== src/Compiler/Appends.antt =====
-- A chunk is compiled by appending.
use xob.Base.{ℕ, List, [], ◌∷◌, none, some, zero, suc}
use xob.Outcome.{Outcome, ok, err, panic, CompileError}
use xob.Vendor.{Vendor}
use xob.Vendor.Bad64
use xob.ExecPool.{ChunkMap, Callbacks}
use xob.Assembler.{Assembler}
use xob.Assembler.Extends.{Extends, Extends-refl, extends_rules}
use xob.InstrUtils.Appends.{make_call-Extends}
use xob.LoadStore.Appends.{compile_instr-Extends as load_store-Extends}
use xob.Arith.Appends.{compile_instr-Extends as arith-Extends}
use xob.Branch.Appends.{compile_instr-Extends as branch-Extends}
use xob.Pauth
use xob.Compiler.{
  Decoded, compile_decoded, compile_instr, recover, compile_or_call, compile_entry, compile_entries,
  create_labels,
}

module _ ⦃v : Vendor⦄ ⦃cb : Callbacks⦄ {a : Assembler} where
  pauth-Extends :
      (i : Bad64.Instruction) (b : Assembler) → Extends a b → Extends a (Pauth.compile_instr i b).1
  unfolding Pauth.compile_instr
  pauth-Extends i b h = h

  compile_decoded-Extends :
      (chunks : ChunkMap) (chunk_addr : ℕ) (i : Bad64.Instruction) (b : Assembler)
      → Extends a b
      → Extends a (compile_decoded chunks chunk_addr i b).1
  unfolding compile_decoded
  compile_decoded-Extends chunks chunk_addr i b h =
      search (extends_rules, load_store-Extends, arith-Extends, branch-Extends, pauth-Extends) depth
        24 fits 4000

  pub compile_instr-Extends :
      (chunks : ChunkMap) (chunk_addr : ℕ) (i : Decoded) (b : Assembler)
      → Extends a b
      → Extends a (compile_instr chunks chunk_addr i b).1
  unfolding compile_instr
  compile_instr-Extends chunks chunk_addr none b h = h
  compile_instr-Extends chunks chunk_addr (some i) b h =
      compile_decoded-Extends chunks chunk_addr i b h

  recover-Extends :
      (r : Outcome (Unit {0})) (b : Assembler) → Extends a b → Extends a (recover r b).1
  unfolding recover
  recover-Extends (ok x) b h = h
  recover-Extends (err CompileError.invalid_instruction) b h = make_call-Extends _ b h
  recover-Extends (err CompileError.unsupported_instruction) b h = make_call-Extends _ b h
  recover-Extends (err CompileError.iced_error) b h = h
  recover-Extends panic b h = h

  compile_or_call-Extends :
      (chunks : ChunkMap) (chunk_addr : ℕ) (i : Decoded) (b : Assembler)
      → Extends a b
      → Extends a (compile_or_call chunks chunk_addr i b).1
  unfolding compile_or_call
  compile_or_call-Extends chunks chunk_addr i b h = search (recover-Extends, compile_instr-Extends)

  pub compile_entry-Extends :
      (chunks : ChunkMap) (chunk_addr : ℕ) (i : Decoded) (l : ℕ) (b : Assembler)
      → Extends a b
      → Extends a (compile_entry chunks chunk_addr i l b).1
  unfolding compile_entry
  compile_entry-Extends chunks chunk_addr i l b h =
      search (extends_rules, compile_or_call-Extends) depth 24 fits 4000

  pub create_labels-Extends :
      (n : ℕ) (b : Assembler) → Extends a b → Extends a (create_labels n b).1
  unfolding create_labels
  create_labels-Extends zero b h = h
  create_labels-Extends (suc n) b h =
      search (extends_rules, create_labels-Extends n) depth 24 fits 4000

  pub compile_entries-Extends :
      (chunks : ChunkMap) (chunk_addr : ℕ) (is : List Decoded) (ls : List ℕ) (b : Assembler)
      → Extends a b
      → Extends a (compile_entries chunks chunk_addr is ls b).1
  unfolding compile_entries
  compile_entries-Extends chunks chunk_addr [] ls b h = h
  compile_entries-Extends chunks chunk_addr (i ∷ is) [] b h = h
  compile_entries-Extends chunks chunk_addr (i ∷ is) (l ∷ ls) b h =
      search (extends_rules, compile_entry-Extends, compile_entries-Extends chunks chunk_addr is ls)
        depth 24 fits 4000

-- Whatever an entry is, and however its translation ends, the calls made for it stand behind those
-- made before it, which stay as they are.
pub compile_or_call-Appends :
    ⦃v : Vendor⦄ ⦃cb : Callbacks⦄ (chunks : ChunkMap) (chunk_addr : ℕ) (i : Decoded) (a : Assembler)
    → Extends a (compile_or_call chunks chunk_addr i a).1
compile_or_call-Appends chunks chunk_addr i a =
    compile_or_call-Extends chunks chunk_addr i a (Extends-refl a)
