-- ===== src/Compiler/Indices.antt =====
-- The indices of x86 instructions that `compile_chunk` notes for the entries of a chunk.
use xob.Base.{
  ℕ, ◌≡◌, ◌≤◌, ◌+◌, refl, sym, ap, ◌∙◌, arith, List, [], ◌∷◌, ◌++◌, Bool-cases, inl, inr,
}
use mathlib.Core.Path.{subst}
use xob.Outcome.{Outcome, ok, err, panic, ok-injective}
use xob.Vendor.{Vendor}
use xob.Vendor.Iced.{Call, Mnemonic, Arg, rax}
use xob.ExecPool.{ChunkMap, Callbacks}
use xob.Assembler.{Assembler, Asm, continue, expect, emit, asm, set_label, zero_bytes}
use xob.Assembler.Extends.{Extends, Extends-refl, emit-Extends}
use xob.InstrUtils.{make_call}
use xob.Compiler.Appends.{compile_entry-Extends}
use xob.Compiler.{
  Decoded, instructions_len, compile_or_call, compile_entry, compile_entries, compile_entries_of,
  create_labels, instrs_per_chunk,
}

-- The numbers never fall, and lie between `lo` and `hi`.
abbrev pub Climbs : ℕ → ℕ → List ℕ → Type 0
Climbs lo hi [] = lo ≤ hi
Climbs lo hi (x ∷ xs) = (lo ≤ x) × Climbs x hi xs

pub Climbs-from : (lo lo' hi : ℕ) (xs : List ℕ) → lo' ≤ lo → Climbs lo hi xs → Climbs lo' hi xs
Climbs-from lo lo' hi [] le h = omega arith
Climbs-from lo lo' hi (x ∷ xs) le h = (omega arith, h.1)

Climbs-to : (lo hi hi' : ℕ) (xs : List ℕ) → hi ≤ hi' → Climbs lo hi xs → Climbs lo hi' xs
Climbs-to lo hi hi' [] le h = omega arith
Climbs-to lo hi hi' (x ∷ xs) le h = (h.0, Climbs-to x hi hi' xs le h.1)

pub Climbs-le : (lo hi : ℕ) (xs : List ℕ) → Climbs lo hi xs → lo ≤ hi
Climbs-le lo hi [] h = h
Climbs-le lo hi (x ∷ xs) h = omega (arith, Climbs-le x hi xs h.1)

pub instructions_len-append :
    (xs ys : List Call) → instructions_len (xs ++ ys) ≡ instructions_len xs + instructions_len ys
unfolding instructions_len
instructions_len-append [] ys = omega arith
instructions_len-append (x ∷ xs) ys = ground (arith, instructions_len-append xs ys)

Extends-instructions_len :
    {a b : Assembler} → Extends a b → instructions_len a.calls ≤ instructions_len b.calls
Extends-instructions_len {a} e =
    rw e.appended (omega (arith, instructions_len-append a.calls e.suffix))

-- A block that succeeds has succeeded at its first step.
ok-continue :
    {A B : Type 0} (f : A → Asm B) (r : Outcome A) (b : Assembler) (y : B)
    → (continue f r b).0 ≡ ok y
    → (x : A) × (r ≡ ok x) × ((f x b).0 ≡ ok y) × (continue f r b ≡ f x b)
ok-continue f (ok x) b y h = (x, refl, h, refl)
ok-continue f (err e) b y h = cc
ok-continue f panic b y h = cc

-- The outcome of a step that succeeds.
ok-expect : {A : Type 0} (r : Outcome A) (x : A) → expect r ≡ ok x → r ≡ ok x
ok-expect (ok y) x h = h
ok-expect (err e) x h = cc
ok-expect panic x h = cc

module _ ⦃v : Vendor⦄ where
  emit-calls :
      (c : Call) (a : Assembler) → (emit c a).0 ≡ ok tt → (emit c a).1.calls ≡ a.calls ++ c ∷ []
  unfolding emit
  emit-calls c a h = elim (Bool-cases (v.accepts a.calls c)) [
    | inl e ↦ rw e refl
    | inr e ↦ (let bad = rw e at h in cc)
  ]

module _ ⦃v : Vendor⦄ ⦃cb : Callbacks⦄ where
  -- The index of an entry is the number of instructions before it.
  compile_entry-index :
      (chunks : ChunkMap) (chunk_addr : ℕ) (i : Decoded) (l x : ℕ) (a : Assembler)
      → (compile_entry chunks chunk_addr i l a).0 ≡ ok x
      → x ≡ instructions_len a.calls
  unfolding compile_entry
  compile_entry-index chunks chunk_addr i l x a h =
      let (_, _, h1, _) = ok-continue _ (expect (set_label l a).0) (set_label l a).1 x h in
      let b = (set_label l a).1 in
      let (_, _, h2, _) = ok-continue _ (expect (zero_bytes b).0) (zero_bytes b).1 x h1 in
      let c = (zero_bytes b).1 in
      let (_, _, h3, _) =
        ok-continue _ (compile_or_call chunks chunk_addr i c).0
          (compile_or_call chunks chunk_addr i c).1 x h2 in
      sym (ok-injective h3)

  compile_entries-Climbs :
      (chunks : ChunkMap) (chunk_addr : ℕ) (is : List Decoded) (ls xs : List ℕ) (a : Assembler)
      → (compile_entries chunks chunk_addr is ls a).0 ≡ ok xs
      → Climbs
          (instructions_len a.calls)
          (instructions_len (compile_entries chunks chunk_addr is ls a).1.calls)
          xs
  unfolding compile_entries
  compile_entries-Climbs chunks chunk_addr [] ls xs a h = rw (sym (ok-injective h)) (omega arith)
  compile_entries-Climbs chunks chunk_addr (i ∷ is) [] xs a h = cc
  compile_entries-Climbs chunks chunk_addr (i ∷ is) (l ∷ ls) xs a h =
      let b = (compile_entry chunks chunk_addr i l a).1 in
      let (x, e1, h1, s1) = ok-continue _ (compile_entry chunks chunk_addr i l a).0 b xs h in
      let (rest, e2, h2, s2) =
        ok-continue _ (compile_entries chunks chunk_addr is ls b).0
          (compile_entries chunks chunk_addr is ls b).1 xs h1 in
      let le =
        Extends-instructions_len (compile_entry-Extends chunks chunk_addr i l a (Extends-refl a)) in
      rw (s1, s2, sym (ok-injective h2), compile_entry-index chunks chunk_addr i l x a e1)
        (
          omega arith,
          Climbs-from _ _ _ rest le (compile_entries-Climbs chunks chunk_addr is ls rest b e2),
        )

-- `call rax`, the last call of a chunk.
abbrev pub last_call : Call
last_call = Call.asm Mnemonic.call (Arg.reg rax ∷ [])

-- The calls `cs` end with the last call of a chunk, and the indices lie before it.
pub record Indexed (cs : List Call) (xs : List ℕ) : Type 0 where
  pub before : List Call
  pub ended : cs ≡ before ++ last_call ∷ []
  pub climbs : Climbs 0 (instructions_len before) xs

module _ ⦃v : Vendor⦄ ⦃cb : Callbacks⦄ where
  -- What `mov rax, target; call rax` leaves, where it is not refused.
  make_call-ends :
      (target : ℕ) (a : Assembler)
      → (make_call target a).0 ≡ ok tt
      → (cs : List Call) × ((make_call target a).1.calls ≡ cs ++ last_call ∷ [])
        × (instructions_len a.calls ≤ instructions_len cs)
  unfolding make_call asm
  make_call-ends target a h =
      let mov = Call.asm Mnemonic.mov (Arg.reg rax ∷ Arg.imm target ∷ []) in
      let b = (emit mov a).1 in
      let (_, e1, h1, s1) = ok-continue (λ _. emit last_call) (emit mov a).0 b tt h in
      (
        b.calls,
        rw s1 (emit-calls last_call b h1),
        Extends-instructions_len (emit-Extends mov a (Extends-refl a)),
      )

  -- The calls of a compiled chunk end with a call, and the indices noted for its entries never fall
  -- and lie before it.
  pub compile_entries_of-Indexed :
      (chunks : ChunkMap) (chunk_addr : ℕ) (is : List Decoded) (xs : List ℕ) (a : Assembler)
      → (compile_entries_of chunks chunk_addr is a).0 ≡ ok xs
      → Indexed (compile_entries_of chunks chunk_addr is a).1.calls xs
  unfolding compile_entries_of
  compile_entries_of-Indexed chunks chunk_addr is xs a h =
      let made = create_labels instrs_per_chunk a in
      let (ls, e1, h1, s1) = ok-continue _ (expect made.0) made.1 xs h in
      let run = compile_entries chunks chunk_addr is ls made.1 in
      let (ys, e2, h2, s2) = ok-continue _ run.0 run.1 xs h1 in
      let called = make_call cb.end_of_chunk_landing_pad run.1 in
      let (u, e3, h3, s3) = ok-continue _ (expect called.0) called.1 xs h2 in
      let (cs, ended, le) =
        make_call-ends cb.end_of_chunk_landing_pad run.1 (ok-expect called.0 tt e3) in
      let up = compile_entries-Climbs chunks chunk_addr is ls ys made.1 e2 in
      record {
        before = cs;
        ended = ap (λ (r : Outcome (List ℕ) × Assembler). r.1.calls) (s1 ∙ s2 ∙ s3) ∙ ended;
        climbs =
            subst (Climbs 0 (instructions_len cs)) (ok-injective h3)
              (Climbs-to _ _ _ ys le (Climbs-from _ 0 _ ys (omega arith) up));
      }
