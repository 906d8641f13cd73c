-- ===== src/Assembler/Extends.antt =====
-- A step only appends calls: the rules by which that is shown of each emitter.
use xob.Base.{
  ℕ, suc, ◌≡◌, refl, ◌∙◌, ap, Bool, true, false, List, [], ◌∷◌, ◌++◌, append_assoc, append-nil,
  if◌then◌else◌, Bool-cases, inl, inr, sym,
}
use xob.Outcome.{Outcome, ok, err, panic}
use xob.Vendor.{Vendor}
use xob.Vendor.Iced.{Mnemonic, Instruction, Arg, Call}
use xob.Assembler.{
  Assembler, Asm, continue, emit, construct, add_instruction, asm, fresh, create_label, fwd,
  set_label, anonymous_label, zero_bytes,
}

-- The assembler `b` has what `a` has, and further calls behind it.
pub record Extends (a b : Assembler) : Type 0 where
  pub suffix : List Call
  pub appended : b.calls ≡ a.calls ++ suffix

pub Extends-refl : (a : Assembler) → Extends a a
Extends-refl a = record { suffix = []; appended = sym (append-nil a.calls) }

pub Extends-trans : {a b c : Assembler} → Extends a b → Extends b c → Extends a c
Extends-trans {a} p q = record {
  suffix = p.suffix ++ q.suffix;
  appended =
      q.appended
      ∙ ap (λ (cs : List Call). cs ++ q.suffix) p.appended
      ∙ append_assoc a.calls p.suffix q.suffix;
}

module _ {A B : Type 0} {a : Assembler} where
  -- The rest of a block may start anywhere behind `a`.
  pub Extends-continue :
      (f : A → Asm B) (r : Outcome A) (b : Assembler)
      → Extends a b
      → ((x : A) (c : Assembler) → Extends a c → Extends a (f x c).1)
      → Extends a (continue f r b).1
  Extends-continue f (ok x) b h k = k x b h
  Extends-continue f (err e) b h k = h
  Extends-continue f panic b h k = h

module _ {A : Type 0} {a : Assembler} where
  pub Extends-if :
      (t : Bool) (m n : Asm A) (b : Assembler)
      → Extends a (m b).1
      → Extends a (n b).1
      → Extends a ((if t then m else n) b).1
  Extends-if true m n b h k = h
  Extends-if false m n b h k = k

module _ ⦃v : Vendor⦄ {a : Assembler} where
  pub emit-Extends : (c : Call) (b : Assembler) → Extends a b → Extends a (emit c b).1
  unfolding emit
  emit-Extends c b h = elim (Bool-cases (v.accepts b.calls c)) [
    | inl e ↦ rw e (Extends-trans h (record { suffix = c ∷ []; appended = refl }))
    | inr e ↦ rw e h
  ]

  pub construct-Extends :
      (i : Instruction) (b : Assembler) → Extends a b → Extends a (construct i b).1
  unfolding construct
  construct-Extends i b h = elim (Bool-cases (v.constructs i)) [ inl e ↦ rw e h | inr e ↦ rw e h ]

  pub fresh-Extends : (make : ℕ → Call) (b : Assembler) → Extends a b → Extends a (fresh make b).1
  unfolding fresh
  fresh-Extends make b h = elim (Bool-cases (v.accepts b.calls (make (suc b.labels)))) [
    | inl e ↦ rw e (Extends-trans h (record { suffix = make (suc b.labels) ∷ []; appended = refl }))
    | inr e ↦ rw e h
  ]

  pub add_instruction-Extends :
      (i : Instruction) (b : Assembler) → Extends a b → Extends a (add_instruction i b).1
  unfolding add_instruction
  add_instruction-Extends i b h = emit-Extends (Call.add_instruction i) b h

  pub asm-Extends :
      (m : Mnemonic) (args : List Arg) (b : Assembler) → Extends a b → Extends a (asm m args b).1
  unfolding asm
  asm-Extends m args b h = emit-Extends (Call.asm m args) b h

  pub create_label-Extends : (b : Assembler) → Extends a b → Extends a (create_label b).1
  unfolding create_label
  create_label-Extends b h = fresh-Extends Call.create_label b h

  pub fwd-Extends : (b : Assembler) → Extends a b → Extends a (fwd b).1
  unfolding fwd
  fwd-Extends b h = fresh-Extends Call.fwd b h

  pub set_label-Extends : (l : ℕ) (b : Assembler) → Extends a b → Extends a (set_label l b).1
  unfolding set_label
  set_label-Extends l b h = emit-Extends (Call.set_label l) b h

  pub anonymous_label-Extends : (b : Assembler) → Extends a b → Extends a (anonymous_label b).1
  unfolding anonymous_label
  anonymous_label-Extends b h = emit-Extends Call.anonymous_label b h

  pub zero_bytes-Extends : (b : Assembler) → Extends a b → Extends a (zero_bytes b).1
  unfolding zero_bytes
  zero_bytes-Extends b h = emit-Extends Call.zero_bytes b h

pub ruleset extends_rules = (
  Extends-continue, Extends-if, construct-Extends, add_instruction-Extends, asm-Extends,
  fwd-Extends, create_label-Extends, set_label-Extends, anonymous_label-Extends, zero_bytes-Extends,
)
