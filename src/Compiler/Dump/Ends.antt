-- ===== src/Compiler/Dump/Ends.antt =====
-- The loops of a listing end.
use mathlib.Core.Path.{subst}
use native.Mathlib.Decide.{dec_lt}
use xob.Base.{
  ℕ, zero, suc, ◌+◌, ◌-◌, ◌*◌, ◌≤◌, ◌<◌, ◌≡◌, refl, sym, ap, arith, Bool, true, false, List, [],
  ◌∷◌, none, some, ltb, ◌==◌, if◌then◌else◌, Bool-cases, inl, inr, length,
}
use xob.Outcome.{Outcome, ok, index, ◌>>=◌}
use xob.ExecPool.{CompiledChunk}
use xob.Compiler.{Decoded}
use xob.Compiler.Dump.{
  X86, Line, dump_instr_pair, x86_offset, dump_until, dump_entry, dump_entries, dump_rest,
  dump_translation,
}
use xob.Compiler.Dump.Columns.{Rest, addressed, dump_translation-Rest}

-- What iced promises of a decoder for the code of a chunk: each call goes forward up to the end,
-- where instructions are invalid.
pub record Decodes (decode : ℕ → X86) (chunk : CompiledChunk) : Type 0 where
  pub starts : (n : ℕ) → chunk.addr ≤ (decode n).ip
  pub within : (n : ℕ) → (decode n).ip ≤ chunk.addr + chunk.len
  pub advances :
      (n : ℕ) → (decode n).ip < chunk.addr + chunk.len → (decode n).ip < (decode (suc n)).ip
  pub ended : (n : ℕ) → chunk.addr + chunk.len ≤ (decode n).ip → (decode n).is_invalid ≡ true

-- The first `n` entries of a chunk have offsets in its code.
abbrev pub HasOffsets : CompiledChunk → ℕ → Type 0
HasOffsets chunk n =
    (i : ℕ) → i < n → (cur : ℕ) × (index chunk.instr_map i ≡ ok cur) × (cur ≤ chunk.len)

abbrev pub Returns : {A : Type 0} → Outcome A → Type 0
Returns {A} m = (a : A) × (m ≡ ok a)

Returns-bind :
    {A B : Type 0} (m : Outcome A) (f : A → Outcome B)
    → Returns m
    → ((a : A) → Returns (f a))
    → Returns (m >>= f)
Returns-bind m f (a, at) rest = rw at (rest a)

module _ (decode : ℕ → X86) (chunk_addr : ℕ) (chunk : CompiledChunk)
    (d : Decodes decode chunk) where
  dump_until-Returns :
      (fuel cur n : ℕ)
      → cur ≤ chunk.len
      → chunk.addr + chunk.len - (decode n).ip < fuel
      → Returns (dump_until decode chunk_addr chunk fuel cur n)
  unfolding dump_until
  dump_until-Returns zero cur n top enough = absurd (omega arith)
  dump_until-Returns (suc fuel) cur n top enough =
      elim (Bool-cases (ltb (x86_offset decode chunk_addr chunk (decode n)) cur)) [
        | inl below ↦ rw below (
            let before : (decode n).ip - chunk.addr < cur = ground (arith, below) in
            let lo = d.starts n in
            let forward = d.advances n (omega arith) in
            Returns-bind (dump_until decode chunk_addr chunk fuel cur (suc n)) _
              (dump_until-Returns fuel cur (suc n) top (let hi = d.within (suc n) in omega arith))
              (λ r. (_, refl)))
        | inr above ↦ rw above (_, refl)
      ]

  module _ (fuel : ℕ) (enough : chunk.len < fuel) where
    dump_entry-Returns :
        (cur : ℕ) (arm : ℕ × Decoded) (n : ℕ)
        → cur ≤ chunk.len
        → Returns (dump_entry decode chunk_addr chunk fuel cur arm n)
    unfolding dump_entry
    dump_entry-Returns cur arm n top =
        elim (Bool-cases (x86_offset decode chunk_addr chunk (decode n) == cur)) [
          | inl here ↦ rw here (_, refl)
          | inr later ↦ rw later (
              Returns-bind (dump_until decode chunk_addr chunk fuel cur (suc n)) _
                (dump_until-Returns fuel cur (suc n) top (let lo = d.starts (suc n) in omega arith))
                (λ r. (_, refl)))
        ]

    dump_entries-Returns :
        (i : ℕ) (arms : List Decoded) (n : ℕ)
        → HasOffsets chunk (i + length arms)
        → Returns (dump_entries decode chunk_addr chunk fuel i arms n)
    unfolding dump_entries
    dump_entries-Returns i [] n offsets = (_, refl)
    dump_entries-Returns i (a ∷ arms) n offsets =
        let (cur, at, top) = offsets i (omega arith) in
        rw at (
          Returns-bind (dump_entry decode chunk_addr chunk fuel cur (chunk_addr + i * 4, a) n) _
            (dump_entry-Returns cur _ n top)
            (λ t.
              Returns-bind (dump_entries decode chunk_addr chunk fuel (suc i) arms t.1) _
                (dump_entries-Returns (suc i) arms t.1 (λ j lt. offsets j (omega arith)))
                (λ q. (_, refl))))

  dump_rest-Returns :
      (fuel n : ℕ)
      → chunk.addr + chunk.len - (decode (suc n)).ip < fuel
      → Returns (dump_rest decode chunk_addr chunk fuel n)
  unfolding dump_rest
  dump_rest-Returns zero n enough = absurd (omega arith)
  dump_rest-Returns (suc fuel) n enough =
      let before : (decode (suc n)).is_invalid ≡ false
          → (decode (suc n)).ip < chunk.addr + chunk.len =
        λ valid. elim (dec_lt (decode (suc n)).ip (chunk.addr + chunk.len)) [
          | yes lt ↦ lt
          | no ge ↦ (let over = d.ended (suc n) (omega arith) in cc)
        ] in
      let branch : Bool → Outcome (List Line) = λ over.
        if over
        then ok []
        else (dump_rest decode chunk_addr chunk fuel (suc n) >>= λ lines.
            ok (dump_instr_pair none (some (decode (suc n))) ∷ lines)) in
      elim (Bool-cases (decode (suc n)).is_invalid) [
        | inl over ↦ ([], ap branch over)
        | inr valid ↦
            (let lt = before valid in
              let forward = d.advances (suc n) lt in
              let hi = d.within (suc (suc n)) in
              subst (λ (over : Bool). Returns (branch over)) (sym valid)
                (Returns-bind (dump_rest decode chunk_addr chunk fuel (suc n)) _
                  (dump_rest-Returns fuel (suc n) (omega arith)) (λ ls. (_, refl))))
      ]

-- The listing of a chunk: where the decoder goes forward and each entry has an offset in the code, more fuel than the
-- length of the code is enough, and the lines have two columns: each AArch64 instruction of the chunk once, in order
-- and with its address, and each x86-64 instruction once and in order, before one that is invalid.
pub dump_translation-Listed :
    (fuel chunk_addr : ℕ) (decode : ℕ → X86) (chunk : CompiledChunk) (arm : Decoded)
    (arms : List Decoded)
    → Decodes decode chunk
    → HasOffsets chunk (suc (length arms))
    → chunk.len < fuel
    → (lines : List Line) × (dump_translation decode chunk_addr chunk fuel (arm ∷ arms) ≡ ok lines)
      × Rest decode chunk_addr chunk 0 (addressed chunk_addr 0 (arm ∷ arms)) lines
unfolding dump_translation
dump_translation-Listed fuel chunk_addr decode chunk arm arms d offsets enough =
    let (t, entries) =
      dump_entries-Returns decode chunk_addr chunk d fuel enough 1 arms 0
        (λ i lt. offsets i (omega arith)) in
    let (rest, at_rest) =
      dump_rest-Returns decode chunk_addr chunk d fuel t.1
        (let lo = d.starts (suc t.1) in omega arith) in
    let (lines, done) : Returns (dump_translation decode chunk_addr chunk fuel (arm ∷ arms)) =
      rw (entries, at_rest) (_, refl) in
    (lines, done, dump_translation-Rest decode chunk_addr chunk fuel (arm ∷ arms) lines done)
