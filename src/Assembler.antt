-- ===== src/Assembler.antt =====
-- The state of a `CodeAssembler` as the compiler sees it: the calls made on it so far, and how many
-- labels it has handed out. Every call may be refused by iced.
pub mod Extends
use xob.Base.{ℕ, zero, suc, List, [], ◌∷◌, ◌++◌, if◌then◌else◌}
use xob.Outcome.{Outcome, ok, err, panic, CompileError}
use xob.Vendor.{Vendor}
use xob.Vendor.Iced.{Register, Code, Mnemonic, OpKind, Instruction, Arg, Call}

pub record Assembler : Type 0 where
  pub calls : List Call
  pub labels : ℕ

-- A step gives its result and the assembler as it leaves it: what was emitted before an error stays.
abbrev pub Asm : Type 0 → Type 0
Asm A = Assembler → Outcome A × Assembler

abbrev pub pure : {A : Type 0} → A → Asm A
pure x a = (ok x, a)

-- What follows a step that has given the result `r` and the assembler `a`.
abbrev pub continue : {A B : Type 0} → (A → Asm B) → Outcome A → Assembler → Outcome B × Assembler
continue f (ok x) a = f x a
continue f (err e) a = (err e, a)
continue f panic a = (panic, a)

infixl 5 ◌>>=◌ ◌>>◌
abbrev pub ◌>>=◌ : {A B : Type 0} → Asm A → (A → Asm B) → Asm B
◌>>=◌ m f a = continue f (m a).0 (m a).1

abbrev pub ◌>>◌ : {B : Type 0} → Asm (Unit {0}) → Asm B → Asm B
m >> k = m >>= λ _. k

-- A step that does not touch the assembler, with its error passed on by `?`.
abbrev pub lift : {A : Type 0} → Outcome A → Asm A
lift r a = (r, a)

abbrev pub fault : {A : Type 0} → CompileError → Asm A
fault e a = (err e, a)

abbrev pub crash : {A : Type 0} → Asm A
crash a = (panic, a)

abbrev pub append_call : Call → Assembler → Assembler
append_call c a = record a { calls = a.calls ++ c ∷ [] }

-- The next label: `create_label` and `fwd` number them from 1.
abbrev pub next_label : Assembler → ℕ
next_label a = suc a.labels

-- `Instruction::with1`, `with2`, `with3` give the operands in order; a slot filled with
-- `Register::None` is set afterwards.
abbrev pub blank : Code → OpKind → OpKind → OpKind → Instruction
blank code a b c = record {
  code = code;
  op0 = a;
  op1 = b;
  op2 = c;
  base = Register.none;
  index = Register.none;
  displacement = 0;
  displ_size = 0;
}

abbrev pub no_op : OpKind
no_op = OpKind.register Register.none

-- `instr.set_op_kind` followed by `instr.set_op_register`, or by the setters of the memory operand.
abbrev pub set_op : Instruction → ℕ → OpKind → Instruction
set_op i zero k = record i { op0 = k }
set_op i (suc zero) k = record i { op1 = k }
set_op i (suc (suc _)) k = record i { op2 = k }

-- `MemoryOperand::with_base_displ`
abbrev pub with_base_displ : Register → ℕ → Instruction → Instruction
with_base_displ r d i = record i { base = r; displacement = d }

module _ ⦃v : Vendor⦄ where
  unfoldable pub emit : Call → Asm (Unit {0})
  emit c a =
      if v.accepts a.calls c then (ok tt, append_call c a) else (err CompileError.iced_error, a)

  unfoldable pub construct : Instruction → Asm Instruction
  construct i a = if v.constructs i then (ok i, a) else (err CompileError.iced_error, a)

  unfoldable pub add_instruction : Instruction → Asm (Unit {0})
  unfolding emit
  add_instruction i = emit (Call.add_instruction i)

  unfoldable pub asm : Mnemonic → List Arg → Asm (Unit {0})
  unfolding emit
  asm m args = emit (Call.asm m args)

  -- The number of the label is the state of the assembler, read before the call.
  unfoldable pub fresh : (ℕ → Call) → Asm ℕ
  fresh make a =
      if v.accepts a.calls (make (next_label a))
      then (
        ok (next_label a),
        record { calls = a.calls ++ make (next_label a) ∷ []; labels = next_label a },
      )
      else (err CompileError.iced_error, a)

  unfoldable pub create_label : Asm ℕ
  unfolding fresh
  create_label = fresh Call.create_label

  unfoldable pub fwd : Asm ℕ
  unfolding fresh
  fwd = fresh Call.fwd

  unfoldable pub set_label : ℕ → Asm (Unit {0})
  unfolding emit
  set_label l = emit (Call.set_label l)

  unfoldable pub anonymous_label : Asm (Unit {0})
  unfolding emit
  anonymous_label = emit Call.anonymous_label

  unfoldable pub zero_bytes : Asm (Unit {0})
  unfolding emit
  zero_bytes = emit Call.zero_bytes

-- `.unwrap()` on the result of a step.
abbrev pub expect : {A : Type 0} → Outcome A → Outcome A
expect (ok x) = ok x
expect (err _) = panic
expect panic = panic

abbrev pub unwrapped : {A : Type 0} → Asm A → Asm A
unwrapped m a = (expect (m a).0, (m a).1)
