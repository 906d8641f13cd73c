-- ===== src/Compiler/Labels.antt =====
-- The labels of a chunk: the jumps inside it name them by number.
use xob.Base.{
  ℕ, zero, suc, ◌+◌, ◌*◌, ◌<◌, ◌≡◌, ◌-◌, ◌/◌, leb, ltb, ◌&&◌, true, refl, arith, some, List, [],
  ◌∷◌, ◌++◌, get_elem?,
}
use xob.Outcome.{ok}
use xob.Vendor.{Vendor}
use xob.Vendor.Iced.{Code, OpKind, Call}
use xob.ExecPool.{chunk_size, ChunkMap, Callbacks}
use xob.Assembler.{Assembler, no_op, create_label, fresh, add_instruction, construct, emit}
use xob.Machine.{Accepting, Emits, plain}
use xob.Branch.{jump_to, near_jump}
use xob.Compiler.{create_labels, instrs_per_chunk}

-- `CodeAssembler::new`
abbrev pub no_calls : Assembler
no_calls = record { calls = []; labels = 0 }

-- `n` labels from `l` on.
abbrev pub labels_from : ℕ → ℕ → List ℕ
labels_from l zero = []
labels_from l (suc n) = l ∷ labels_from (suc l) n

get_elem?-labels_from : (l n i : ℕ) → i < n → get_elem? (labels_from l n) i ≡ some (l + i)
get_elem?-labels_from l zero i h = absurd (omega arith)
get_elem?-labels_from l (suc n) zero h = ground arith
get_elem?-labels_from l (suc n) (suc i) h = ground (arith, get_elem?-labels_from (suc l) n i)

module _ ⦃v : Vendor⦄ ⦃cb : Callbacks⦄ (acc : Accepting v) where
  create_labels-numbers :
      (n : ℕ) (a : Assembler) → (create_labels n a).0 ≡ ok (labels_from (suc a.labels) n)
  unfolding create_labels create_label fresh
  create_labels-numbers zero a = refl
  create_labels-numbers (suc n) a =
      rw
        (
          acc.accepts_all a.calls (Call.create_label (suc a.labels)),
          create_labels-numbers n (record {
            calls = a.calls ++ Call.create_label (suc a.labels) ∷ [];
            labels = suc a.labels;
          }),
        )
        refl

in_this_chunk : (c i : ℕ) → i < 128 → (leb c (c + i * 4) && ltb (c + i * 4) (c + chunk_size)) ≡ true
in_this_chunk c i h = ground arith

label_number : (c i : ℕ) → (c + i * 4 - c) / 4 + 1 ≡ 1 + i
label_number c i = omega arith

module _ ⦃v : Vendor⦄ ⦃cb : Callbacks⦄ (acc : Accepting v) where
  -- Where iced refuses nothing, a jump to instruction `i` of the chunk, below 128, is one x86 jump to
  -- the label at position `i` of those that the chunk makes on a new assembler.
  pub jump_to-label :
      (chunks : ChunkMap) (chunk_addr i : ℕ) (a : Assembler)
      → i < instrs_per_chunk
      → (ls : List ℕ) × (l : ℕ) × ((create_labels instrs_per_chunk no_calls).0 ≡ ok ls)
        × (get_elem? ls i ≡ some l)
        × Emits
            (jump_to chunks chunk_addr (chunk_addr + i * 4))
            a
            (plain Code.jmp_rel32_64 (OpKind.branch l) no_op ∷ [])
  unfolding jump_to near_jump add_instruction construct emit
  jump_to-label chunks chunk_addr i a h = (
    labels_from 1 instrs_per_chunk,
    1 + i,
    create_labels-numbers acc instrs_per_chunk no_calls,
    get_elem?-labels_from 1 instrs_per_chunk i h,
    rw (in_this_chunk chunk_addr i h, label_number chunk_addr i)
        (simp (acc.constructs_all, acc.accepts_all)),
  )
