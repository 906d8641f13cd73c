-- ===== src/Compiler/Dump/Columns.antt =====
-- What the two columns of a listing are.
use mathlib.Core.Path.{subst}
use native.Mathlib.Nat.{zero-add, suc-add}
use xob.Base.{
  ℕ, zero, suc, ◌+◌, ◌*◌, ◌≡◌, ◌∙◌, refl, sym, ap, arith, Bool, true, List, [], ◌∷◌, ◌++◌, Option,
  none, some, ltb, ◌==◌, if◌then◌else◌, append-nil, Bool-cases, inl, inr,
}
use xob.Outcome.{Outcome, ok, index, ◌>>=◌, ok-bind, ok-injective}
use xob.ExecPool.{CompiledChunk}
use xob.Compiler.{Decoded}
use xob.Compiler.Dump.{
  X86, Line, dump_instr_pair, x86_offset, dump_until, dump_entry, dump_entries, dump_rest,
  dump_translation,
}

abbrev pub keep {ℓ} : {A : Type ℓ} → Option A → List A → List A
keep none xs = xs
keep (some a) xs = a ∷ xs

-- The entries of a column.
abbrev pub arm_column : List Line → List (ℕ × Decoded)
arm_column [] = []
arm_column (l ∷ ls) = keep l.arm (arm_column ls)

abbrev pub x86_column : List Line → List X86
x86_column [] = []
x86_column (l ∷ ls) = keep l.x86 (x86_column ls)

-- The instructions of a chunk from index `i` on, with their addresses.
abbrev pub addressed : ℕ → ℕ → List Decoded → List (ℕ × Decoded)
addressed chunk_addr i [] = []
addressed chunk_addr i (arm ∷ arms) = (chunk_addr + i * 4, arm) ∷ addressed chunk_addr (suc i) arms

-- `n` decoded instructions from number `k` on.
abbrev pub decoded : (ℕ → X86) → ℕ → ℕ → List X86
decoded decode k zero = []
decoded decode k (suc n) = decode k ∷ decoded decode (suc k) n

keep-append {ℓ} : {A : Type ℓ} (o : Option A) (xs ys : List A) → keep o (xs ++ ys) ≡ keep o xs ++ ys
keep-append none xs ys = refl
keep-append (some a) xs ys = refl

arm_column-append : (ls ms : List Line) → arm_column (ls ++ ms) ≡ arm_column ls ++ arm_column ms
arm_column-append [] ms = refl
arm_column-append (l ∷ ls) ms = rw (arm_column-append ls ms) (keep-append l.arm _ _)

x86_column-append : (ls ms : List Line) → x86_column (ls ++ ms) ≡ x86_column ls ++ x86_column ms
x86_column-append [] ms = refl
x86_column-append (l ∷ ls) ms = rw (x86_column-append ls ms) (keep-append l.x86 _ _)

decoded-append :
    (decode : ℕ → X86) (k m n j : ℕ)
    → k + m ≡ j
    → decoded decode k m ++ decoded decode j n ≡ decoded decode k (m + n)
decoded-append decode k zero n j here = let same : j ≡ k = omega arith in rw (same, zero-add n) refl
decoded-append decode k (suc m) n j here =
    rw (suc-add m n)
      (ap (λ (ds : List X86). decode k ∷ ds) (decoded-append decode (suc k) m n j (omega arith)))

-- Lines that hold the AArch64 instructions of a list and the x86-64 instructions from number `k` on,
-- up to number `n`, each once and in order.
pub record Listed (decode : ℕ → X86) (k n : ℕ) (arms : List (ℕ × Decoded)) (lines : List Line)
    : Type 0 where
  pub count : ℕ
  pub arm : arm_column lines ≡ arms
  pub x86 : x86_column lines ≡ decoded decode k count
  pub last : k + count ≡ n

module _ (decode : ℕ → X86) where
  Listed-append :
      (k n j : ℕ) (arms arms' : List (ℕ × Decoded)) (ls ms : List Line)
      → Listed decode k n arms ls
      → Listed decode n j arms' ms
      → Listed decode k j (arms ++ arms') (ls ++ ms)
  Listed-append k n j arms arms' ls ms a b = record {
    count = a.count + b.count;
    arm = rw (arm_column-append ls ms, a.arm, b.arm) refl;
    x86 =
        rw (x86_column-append ls ms, a.x86, b.x86)
          (decoded-append decode k a.count b.count n a.last);
    last = let h = a.last in let h' = b.last in omega arith;
  }

  -- Nothing, and a line with the next x86-64 instruction alone, an AArch64 instruction alone, or both.
  Listed-nil : (k : ℕ) → Listed decode k k [] []
  Listed-nil k = record { count = 0; arm = refl; x86 = refl; last = omega arith }

  Listed-x86 :
      (k : ℕ) → Listed decode k (suc k) [] (record { arm = none; x86 = some (decode k) } ∷ [])
  Listed-x86 k = record { count = 1; arm = refl; x86 = refl; last = omega arith }

  Listed-arm :
      (k : ℕ) (a : ℕ × Decoded)
      → Listed decode k k (a ∷ []) (record { arm = some a; x86 = none } ∷ [])
  Listed-arm k a = record { count = 0; arm = refl; x86 = refl; last = omega arith }

  Listed-both :
      (k : ℕ) (a : ℕ × Decoded)
      → Listed decode k (suc k) (a ∷ []) (record { arm = some a; x86 = some (decode k) } ∷ [])
  Listed-both k a = record { count = 1; arm = refl; x86 = refl; last = omega arith }

  -- What a loop from number `n` on returns.
  abbrev Lists : ℕ → List (ℕ × Decoded) → List Line × ℕ → Type 0
  Lists n arms r = Listed decode n r.1 arms r.0

  module _ (chunk_addr : ℕ) (chunk : CompiledChunk) where
    dump_until-Listed :
        (fuel cur n : ℕ) (r : List Line × ℕ)
        → dump_until decode chunk_addr chunk fuel cur n ≡ ok r
        → Lists n [] r
    unfolding dump_until dump_instr_pair
    dump_until-Listed zero cur n r h = absurd cc
    dump_until-Listed (suc fuel) cur n r h =
        elim (Bool-cases (ltb (x86_offset decode chunk_addr chunk (decode n)) cur)) [
          | inl below ↦
              (let h' = rw below at h in
                let (t, rest, eq) =
                  ok-bind (dump_until decode chunk_addr chunk fuel cur (suc n)) _ r h' in
                subst (Lists n []) (ok-injective eq) (
                  Listed-append n (suc n) t.1 [] [] _ t.0 (Listed-x86 n)
                    (dump_until-Listed fuel cur (suc n) t rest)))
          | inr above ↦
              (let h' = rw above at h in subst (Lists n []) (ok-injective h') (Listed-nil n))
        ]

    -- The instruction that is decoded last is not printed yet by the inner loop, and is printed by a round.
    dump_entry-Listed :
        (fuel cur : ℕ) (arm : ℕ × Decoded) (n : ℕ) (r : List Line × ℕ)
        → dump_entry decode chunk_addr chunk fuel cur arm n ≡ ok r
        → Listed decode (suc n) (suc r.1) (arm ∷ []) r.0
    unfolding dump_entry dump_instr_pair
    dump_entry-Listed fuel cur arm n r h =
        elim (Bool-cases (x86_offset decode chunk_addr chunk (decode n) == cur)) [
          | inl here ↦
              (let h' = rw here at h in
                subst (λ (q : List Line × ℕ). Listed decode (suc n) (suc q.1) (arm ∷ []) q.0)
                  (ok-injective h') (Listed-arm (suc n) arm))
          | inr later ↦
              (let h' = rw later at h in
                let (t, rest, eq) =
                  ok-bind (dump_until decode chunk_addr chunk fuel cur (suc n)) _ r h' in
                subst (λ (q : List Line × ℕ). Listed decode (suc n) (suc q.1) (arm ∷ []) q.0)
                  (ok-injective eq)
                  (Listed-append (suc n) t.1 (suc t.1) [] (arm ∷ []) t.0 _
                    (dump_until-Listed fuel cur (suc n) t rest) (Listed-both t.1 arm)))
        ]

    dump_entries-Listed :
        (fuel i : ℕ) (arms : List Decoded) (n : ℕ) (r : List Line × ℕ)
        → dump_entries decode chunk_addr chunk fuel i arms n ≡ ok r
        → Listed decode (suc n) (suc r.1) (addressed chunk_addr i arms) r.0
    unfolding dump_entries
    dump_entries-Listed fuel i [] n r h =
        subst (λ (q : List Line × ℕ). Listed decode (suc n) (suc q.1) [] q.0) (ok-injective h)
          (Listed-nil (suc n))
    dump_entries-Listed fuel i (a ∷ arms) n r h =
        let (cur, at_cur, h1) = ok-bind (index chunk.instr_map i) _ r h in
        let (t, entry, h2) =
          ok-bind (dump_entry decode chunk_addr chunk fuel cur (chunk_addr + i * 4, a) n) _ r h1 in
        let (q, rest, eq) =
          ok-bind (dump_entries decode chunk_addr chunk fuel (suc i) arms t.1) _ r h2 in
        subst
          (λ (q : List Line × ℕ).
            Listed decode (suc n) (suc q.1) (addressed chunk_addr i (a ∷ arms)) q.0)
          (ok-injective eq)
          (Listed-append (suc n) (suc t.1) (suc q.1) _ _ t.0 q.0
            (dump_entry-Listed fuel cur (chunk_addr + i * 4, a) n t entry)
            (dump_entries-Listed fuel (suc i) arms t.1 q rest))

    -- Before one that is invalid.
    abbrev pub Rest : ℕ → List (ℕ × Decoded) → List Line → Type 0
    Rest k arms lines = (n : ℕ) × Listed decode k n arms lines × ((decode n).is_invalid ≡ true)

    dump_rest-Rest :
        (fuel n : ℕ) (lines : List Line)
        → dump_rest decode chunk_addr chunk fuel n ≡ ok lines
        → Rest (suc n) [] lines
    unfolding dump_rest dump_instr_pair
    dump_rest-Rest zero n lines h = absurd cc
    dump_rest-Rest (suc fuel) n lines h =
        let branch : Bool → Outcome (List Line) = λ over.
          if over
          then ok []
          else (dump_rest decode chunk_addr chunk fuel (suc n) >>= λ ls.
              ok (record { arm = none; x86 = some (decode (suc n)) } ∷ ls)) in
        elim (Bool-cases (decode (suc n)).is_invalid) [
          | inl over ↦
              (let h' : ok [] ≡ ok lines = ap branch (sym over) ∙ h in
                subst (Rest (suc n) []) (ok-injective h') (suc n, Listed-nil (suc n), over))
          | inr valid ↦
              (let (ls, rest, eq) =
                  ok-bind (dump_rest decode chunk_addr chunk fuel (suc n)) _ lines
                    (ap branch (sym valid) ∙ h) in
                let (k, listed, over) = dump_rest-Rest fuel (suc n) ls rest in
                subst (Rest (suc n) []) (ok-injective eq) (
                  k,
                  Listed-append (suc n) (suc (suc n)) k [] [] _ ls (Listed-x86 (suc n)) listed,
                  over,
                ))
        ]

    pub dump_translation-Rest :
        (fuel : ℕ) (arms : List Decoded) (lines : List Line)
        → dump_translation decode chunk_addr chunk fuel arms ≡ ok lines
        → Rest 0 (addressed chunk_addr 0 arms) lines
    unfolding dump_translation dump_instr_pair
    dump_translation-Rest fuel [] lines h = absurd cc
    dump_translation-Rest fuel (a ∷ arms) lines h =
        let (t, entries, h1) =
          ok-bind (dump_entries decode chunk_addr chunk fuel 1 arms 0) _ lines h in
        let (ls, rest, eq) = ok-bind (dump_rest decode chunk_addr chunk fuel t.1) _ lines h1 in
        let (k, listed, over) = dump_rest-Rest fuel t.1 ls rest in
        let start : chunk_addr + 0 * 4 ≡ chunk_addr = omega arith in
        let later =
          subst (λ (bs : List (ℕ × Decoded)). Listed decode 1 k bs (t.0 ++ ls))
            (append-nil (addressed chunk_addr 1 arms))
            (Listed-append 1 (suc t.1) k _ [] t.0 ls (dump_entries-Listed fuel 1 arms 0 t entries)
              listed) in
        let all =
          Listed-append 0 1 k ((chunk_addr, a) ∷ []) _ _ (t.0 ++ ls) (Listed-both 0 (chunk_addr, a))
            later in
        subst (Rest 0 (addressed chunk_addr 0 (a ∷ arms))) (ok-injective eq) (k, rw start all, over)
