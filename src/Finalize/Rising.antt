-- ===== src/Finalize/Rising.antt =====
-- The instruction map of a compiled chunk never falls, given what is documented of the encoder.
use xob.Base.{
  ℕ, zero, suc, ◌+◌, ◌≤◌, ◌<◌, ◌≡◌, ap, sym, refl, arith, List, [], ◌∷◌, ◌++◌, length, some,
  Bool-cases, inl, inr, ◌==◌, ltb,
}
use xob.Outcome.{ok, index, ok-bind, ok-injective, unwrap, ok-unwrap}
use xob.Vendor.Iced.{Call, Mnemonic, Arg}
use xob.ExecPool.{ExecPool, CompiledChunk, executable_alloc_size}
use mathlib.Core.Path.{subst}
use xob.Compiler.{instructions_len}
use xob.Compiler.Indices.{Climbs, Climbs-le, Indexed, instructions_len-append, last_call}
use xob.Finalize.Offsets.{to_u16-fits}
use xob.Finalize.{
  Platform, Encoded, byte_offset, to_u16, instr_offsets, ensure_region, place, finalize_ass,
  finalize_chunk, alloc_new_region,
}
use xob.Runner.Offsets.{AllFrom, Entry, Entry-mono}

-- What is documented of the block encoder: an offset for each instruction, in the order of the
-- instructions; and an instruction that ends the code, if it is not `zero_bytes`, has bytes, so that
-- every offset is below the length of the code.
pub record InOrder (p : Platform) : Type 0 where
  pub counted :
      (cs : List Call) (addr : ℕ) (e : Encoded)
      → p.encode cs addr ≡ some e
      → length e.new_instruction_offsets ≡ instructions_len cs
  pub rising :
      (cs : List Call) (addr : ℕ) (e : Encoded)
      → p.encode cs addr ≡ some e
      → AllFrom 0 e.new_instruction_offsets
  pub ended :
      (cs : List Call) (m : Mnemonic) (args : List Arg) (addr : ℕ) (e : Encoded) (i o : ℕ)
      → p.encode (cs ++ Call.asm m args ∷ []) addr ≡ some e
      → Entry e.new_instruction_offsets i o
      → o < length e.code_buffer

-- A chunk whose offsets never fall and lie in its code.
pub record Ordered (c : CompiledChunk) : Type 0 where
  pub rising : AllFrom 0 c.instr_map
  pub inside : (i o : ℕ) → Entry c.instr_map i o → o < c.len

pub index-Entry : (os : List ℕ) (i o : ℕ) → index os i ≡ ok o → Entry os i o
index-Entry [] i o h = cc
index-Entry (x ∷ xs) zero o h = cc
index-Entry (x ∷ xs) (suc i) o h = index-Entry xs i o h

module _ ⦃p : Platform⦄ (enc : Encoded) where
  byte_offset-Entry :
      (x o : ℕ)
      → x < length enc.new_instruction_offsets
      → byte_offset enc x ≡ ok o
      → Entry enc.new_instruction_offsets x o
  unfolding byte_offset
  byte_offset-Entry x o lt h = elim (Bool-cases (x == length enc.new_instruction_offsets)) [
    | inl e ↦ absurd (ground arith)
    | inr e ↦ index-Entry enc.new_instruction_offsets x o (rw e at h)
  ]

  -- The first step of the loop, and the rest of it.
  instr_offsets-step :
      (n x : ℕ) (xs m : List ℕ)
      → instr_offsets enc (suc n) (x ∷ xs) ≡ ok m
      → (o : ℕ) × (rest : List ℕ) × (byte_offset enc x ≡ ok o)
        × (instr_offsets enc n xs ≡ ok rest)
        × (o ∷ rest ≡ m)
  unfolding instr_offsets
  instr_offsets-step n x xs m h =
      let (raw, e1, h1) = ok-bind (byte_offset enc x) _ m h in
      let (o, e2, h2) = ok-bind (to_u16 raw) _ m h1 in
      let (rest, e3, h3) = ok-bind (instr_offsets enc n xs) _ m h2 in
      let (same, _) = to_u16-fits raw o e2 in (o, rest, rw same at e1, e3, ok-injective h3)

  -- `hi` bounds the indices; every offset from index `k` on is at least `lo`.
  instr_offsets-AllFrom :
      AllFrom 0 enc.new_instruction_offsets
      → (n k lo hi : ℕ) (xs m : List ℕ) → Climbs k hi xs
      → hi < length enc.new_instruction_offsets
      → ((j q : ℕ) → Entry enc.new_instruction_offsets j q → k ≤ j → lo ≤ q)
      → instr_offsets enc n xs ≡ ok m
      → AllFrom lo m × ((i o : ℕ) → Entry m i o → (x : ℕ) × Entry enc.new_instruction_offsets x o)
  unfolding instr_offsets
  instr_offsets-AllFrom up zero k lo hi xs m c lt above h =
      rw (sym (ok-injective h)) (tt, λ i o e. cc)
  instr_offsets-AllFrom up (suc n) k lo hi [] m c lt above h = cc
  instr_offsets-AllFrom up (suc n) k lo hi (x ∷ xs) m c lt above h =
      let (o, rest, e1, e2, same) = instr_offsets-step n x xs m h in
      let le = Climbs-le x hi xs c.1 in
      let here = byte_offset-Entry x o (omega arith) e1 in
      let (later, drawn) =
        instr_offsets-AllFrom up n x o hi xs rest c.1 lt
          (λ j q e le'. (Entry-mono 0 enc.new_instruction_offsets x j o q up here e le').0) e2 in
      rw (sym same) ((above x o here c.0, later), λ i q. drawn_of x o rest here drawn i q)
    where
      drawn_of :
          (x o : ℕ) (rest : List ℕ)
          → Entry enc.new_instruction_offsets x o
          → ((i q : ℕ) → Entry rest i q → (y : ℕ) × Entry enc.new_instruction_offsets y q)
          → (i q : ℕ) → Entry (o ∷ rest) i q
          → (y : ℕ) × Entry enc.new_instruction_offsets y q
      drawn_of x o rest here drawn zero q e = (x, cc)
      drawn_of x o rest here drawn (suc i) q e = drawn i q e

instructions_len-last : instructions_len (last_call ∷ []) ≡ 1
unfolding instructions_len
instructions_len-last = refl

module _ ⦃p : Platform⦄ where
  place-encoded :
      (instrs : List Call) (pool pool' : ExecPool) (enc enc' : Encoded) (addr : ℕ)
      → p.encode instrs addr ≡ some enc
      → place instrs pool enc ≡ ok (pool', enc')
      → (at : ℕ) × (p.encode instrs at ≡ some enc')
  unfolding place
  place-encoded instrs pool pool' enc enc' addr h placed =
      elim (Bool-cases
        (ltb executable_alloc_size (length enc.code_buffer + pool.current_alloc_utilization))) [
          | inl full ↦
              (let (q, _, rest) =
                  ok-bind (alloc_new_region pool) _ (pool', enc') (rw full at placed) in
                let (e, again, done) =
                  ok-bind (unwrap (p.encode instrs q.current_alloc)) _ (pool', enc') rest in
                let same : e ≡ enc' = ap (λ (r : ExecPool × Encoded). r.1) (ok-injective done) in
                (q.current_alloc, rw same at (ok-unwrap _ e again)))
          | inr fits ↦
              (let same : enc ≡ enc' =
                  ap (λ (r : ExecPool × Encoded). r.1) (ok-injective (rw fits at placed)) in
                (addr, rw same at h))
        ]

  -- The code that `finalize_ass` returns comes from the encoder.
  finalize_ass-encoded :
      (pool pool' : ExecPool) (instrs : List Call) (target : ℕ) (enc : Encoded)
      → finalize_ass pool instrs ≡ ok (pool', target, enc)
      → (at : ℕ) × (p.encode instrs at ≡ some enc)
  unfolding finalize_ass
  finalize_ass-encoded pool pool' instrs target enc h =
      let (ready, e1, h1) = ok-bind (ensure_region pool) _ (pool', target, enc) h in
      let (first, e2, h2) =
        ok-bind (unwrap (p.encode instrs ready.current_alloc)) _ (pool', target, enc) h1 in
      let ((placed, code), e3, h3) = ok-bind (place instrs ready first) _ (pool', target, enc) h2 in
      let (at, e) =
        place-encoded instrs ready placed first code ready.current_alloc (ok-unwrap _ first e2)
          e3 in
      (at, rw (ap (λ (r : ExecPool × ℕ × Encoded). r.2) (ok-injective h3)) at e)

  -- The map that `finalize_chunk` builds for the indices of a compiled chunk never falls, and its offsets lie
  -- in the code.
  pub finalize_chunk-Ordered :
      InOrder p
      → (pool pool' : ExecPool) (instrs : List Call) (n : ℕ) (xs : List ℕ) (c : CompiledChunk)
      → Indexed instrs xs
      → finalize_chunk pool instrs n xs ≡ ok (pool', c)
      → Ordered c
  unfolding finalize_chunk
  finalize_chunk-Ordered order pool pool' instrs n xs c indexed h =
      let ((placed, target, enc), e1, h1) = ok-bind (finalize_ass pool instrs) _ (pool', c) h in
      let (offsets, e2, h2) = ok-bind (instr_offsets enc n xs) _ (pool', c) h1 in
      let (at, encoded) = finalize_ass-encoded pool placed instrs target enc e1 in
      let encoded' = rw indexed.ended at encoded in
      let count = order.counted instrs at enc encoded in
      let total = instructions_len-append indexed.before (last_call ∷ []) in
      let room = instructions_len-last in
      let (up, drawn) =
        instr_offsets-AllFrom enc (order.rising instrs at enc encoded) n 0 0
          (instructions_len indexed.before) xs offsets indexed.climbs
          (rw (count, indexed.ended, total, room) (omega arith)) (λ j q e le. omega arith) e2 in
      subst (λ (r : ExecPool × CompiledChunk). Ordered r.1) (ok-injective h2)
        (record {
          rising = up;
          inside = λ i o e.
              let (x, e') = drawn i o e in order.ended indexed.before _ _ at enc x o encoded' e';
        })
