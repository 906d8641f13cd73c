-- ===== src/Machine.antt =====
-- What the emitted two-operand instructions do to a translated program's state: the general registers,
-- the slots of the execution context, and the flags of the processor. A 32-bit instruction reads the
-- low half of its operands; it clears the upper half of a register that it writes, and keeps that of a slot. The
-- width, the result and the flags of each code are a parameter.
pub mod Frame
pub mod Emit
pub mod Rr
pub mod Rrr
pub mod MakeRrr
pub mod Logical
pub mod Mov
pub mod MovZero
pub mod Sub
use xob.Base.{
  ℕ, ◌+◌, ◌*◌, ◌/◌, ◌%◌, ◌^◌, Bool, true, false, List, [], ◌∷◌, ◌++◌, Option, none, some, ◌==◌,
  if◌then◌else◌, ◌≡◌, ◌≢◌,
}
use xob.Vendor.{Vendor}
use xob.Vendor.Iced.{Register, Code, OpKind, Instruction, Call, Arg, Mnemonic, r15}
use xob.Register.{RegClass, NativeRegClass, RegTranslation}
use xob.Register.Allocation.{Place, place_eq, at_place}
use xob.InstrUtils.Codes.{OpRrCodes}
use xob.Assembler.{Assembler, Asm, blank, no_op}
use xob.Outcome.{ok}

-- The contents of the places, as 64-bit values.
abbrev pub Places : Type 0
Places = Place → ℕ

pub record State : Type 0 where
  pub places : Places
  pub flags : ℕ

abbrev pub update : Places → Place → ℕ → Places
update s p n q = if place_eq p q then n else s q

pub data Width : Type 0 where
  wide narrow : Width

-- What is read of a value.
abbrev pub low : Width → ℕ → ℕ
low Width.wide n = n
low Width.narrow n = n % 2 ^ 32

-- What is in a place after a write of `n` over `old`.
abbrev pub merged : Width → Place → ℕ → ℕ → ℕ
merged Width.wide p old n = n
merged Width.narrow (Place.hardware i) old n = n % 2 ^ 32
merged Width.narrow (Place.slot o) old n = old / 2 ^ 32 * 2 ^ 32 + n % 2 ^ 32

abbrev pub write : Width → Places → Place → ℕ → Places
write w s p n = update s p (merged w p (s p) n)

-- The instructions: the width of a code, its result and the flags that it leaves, from the flags
-- before and its operands.
pub record Isa : Type 0 where
  pub width : Code → Width
  pub result : Code → ℕ → ℕ → ℕ
  pub flags : Code → ℕ → ℕ → ℕ → ℕ

abbrev pub register_place : Register → Option Place
register_place (Register.r64 n) = some (Place.hardware n)
register_place (Register.r32 n) = some (Place.hardware n)
register_place _ = none

-- A memory operand is a slot where its base is the context register R15.
abbrev pub memory_place : Register → ℕ → Option Place
memory_place (Register.r64 n) d = if n == 15 then some (Place.slot d) else none
memory_place _ d = none

abbrev pub operand_place : Instruction → OpKind → Option Place
operand_place i (OpKind.register r) = register_place r
operand_place i OpKind.memory = memory_place i.base i.displacement
operand_place i _ = none

-- The value of an operand: an immediate stands for itself.
abbrev pub operand_value : Places → Instruction → OpKind → Option ℕ
operand_value s i (OpKind.immediate n) = some n
operand_value s i (OpKind.register r) = elim (register_place r) [
  | none ↦ none
  | some p ↦ some (s p)
]
operand_value s i OpKind.memory = elim (memory_place i.base i.displacement) [
  | none ↦ none
  | some p ↦ some (s p)
]
operand_value s i (OpKind.branch _) = none

-- A code on a place and a value, where both are known.
abbrev pub apply_at : Isa → Code → State → Option Place → Option ℕ → Option State
apply_at isa code s (some p) (some n) = some (record {
  places =
      write (isa.width code) s.places p
        (isa.result code (low (isa.width code) (s.places p)) (low (isa.width code) n));
  flags = isa.flags code s.flags (low (isa.width code) (s.places p)) (low (isa.width code) n);
})
apply_at isa code s _ _ = none

abbrev pub arg_place : Arg → Option Place
arg_place (Arg.reg r) = register_place r
arg_place (Arg.ptr r d) = memory_place r d
arg_place _ = none

abbrev pub arg_value : Places → Arg → Option ℕ
arg_value s (Arg.imm n) = some n
arg_value s a = elim (arg_place a) [ none ↦ none | some p ↦ some (s p) ]

-- `mov` is as wide as its register.
abbrev pub register_width : Register → Width
register_width (Register.r32 _) = Width.narrow
register_width _ = Width.wide

abbrev pub move_width : Arg → Arg → Width
move_width (Arg.reg r) a = register_width r
move_width d (Arg.reg r) = register_width r
move_width _ _ = Width.wide

abbrev pub move_to : Width → State → Option Place → Option ℕ → Option State
move_to w s (some p) (some n) =
    some (record { places = write w s.places p (low w n); flags = s.flags })
move_to w s _ _ = none

module _ (isa : Isa) where
  -- One call; `none` for what is not a two-operand instruction on places.
  abbrev pub step : Call → State → Option State
  step (Call.add_instruction i) s =
      apply_at isa i.code s (operand_place i i.op0) (operand_value s.places i i.op1)
  step (Call.asm Mnemonic.mov (d ∷ a ∷ [])) s =
      move_to (move_width d a) s (arg_place d) (arg_value s.places a)
  step _ s = none

  abbrev pub run : List Call → State → Option State
  run [] s = some s
  run (c ∷ cs) s = elim (step c s) [ none ↦ none | some s' ↦ run cs s' ]

-- `m` succeeds on `a` and appends the calls `cs`.
abbrev pub Emits : Asm (Unit {0}) → Assembler → List Call → Type 0
Emits m a cs = m a ≡ (ok tt, record a { calls = a.calls ++ cs })

-- iced refuses no instruction and no call.
pub record Accepting (v : Vendor) : Type 0 where
  pub constructs_all : (i : Instruction) → v.constructs i ≡ true
  pub accepts_all : (cs : List Call) (c : Call) → v.accepts cs c ≡ true

-- The scratch register, which no emulated register is allocated to.
abbrev pub scratch_place : Place
scratch_place = Place.hardware 0

-- `s'` holds `n` at `p`, and is `s` everywhere else but in the scratch register.
abbrev pub Leaves : Places → Places → Place → ℕ → Type 0
Leaves s s' p n = (s' p ≡ n) × ((q : Place) → q ≢ p → q ≢ scratch_place → s' q ≡ s q)

-- From any assembler, `m` succeeds, and the calls that it appends take `s` to a state with `n` at
-- `p` and `flags` as flags, and with no other place changed but the scratch register.
abbrev pub Computes : Isa → Asm (Unit {0}) → State → Place → ℕ → ℕ → Type 0
Computes isa m s p n flags =
    (a : Assembler)
    → (cs : List Call) × (s' : State) × Emits m a cs
      × (run isa cs s ≡ some s')
      × Leaves s.places s'.places p n
      × (s'.flags ≡ flags)

-- An operation at both widths.
pub record Operation : Type 0 where
  pub result : Width → ℕ → ℕ → ℕ
  pub flags : Width → ℕ → ℕ → ℕ → ℕ

-- A move leaves the flags as they are.
abbrev pub copying : Operation
copying = record { result = λ w _ n. n; flags = λ w before _ _. before }

pub record Acts (isa : Isa) (code : Code) (w : Width) (op : Operation) : Type 0 where
  pub width : isa.width code ≡ w
  pub result : isa.result code ≡ op.result w
  pub flags : isa.flags code ≡ op.flags w

-- The four encodings of an operation perform it.
pub record Denotes (isa : Isa) (codes : OpRrCodes) (op : Operation) : Type 0 where
  pub r32 : Acts isa codes.r32_rm32 Width.narrow op
  pub rm32 : Acts isa codes.rm32_r32 Width.narrow op
  pub r64 : Acts isa codes.r64_rm64 Width.wide op
  pub rm64 : Acts isa codes.rm64_r64 Width.wide op

abbrev pub width_of : RegClass → Width
width_of RegClass.gpr64 = Width.wide
width_of _ = Width.narrow

-- What an operation leaves in a place, and the flags that it leaves.
abbrev pub new_value : Operation → Width → Place → ℕ → ℕ → ℕ → ℕ
new_value op w d old a b = merged w d old (op.result w (low w a) (low w b))

abbrev pub new_flags : Operation → Width → ℕ → ℕ → ℕ → ℕ
new_flags op w before a b = op.flags w before (low w a) (low w b)

-- The same for code that tells that it has handled its instruction.
abbrev pub Compiles : Isa → Asm Bool → State → Place → ℕ → ℕ → Type 0
Compiles isa m s p n flags =
    (a : Assembler)
    → (cs : List Call) × (s' : State) × (m a ≡ (ok true, record a { calls = a.calls ++ cs }))
      × (run isa cs s ≡ some s')
      × Leaves s.places s'.places p n
      × (s'.flags ≡ flags)

abbrev pub bits : Width → ℕ
bits Width.wide = 64
bits Width.narrow = 32

abbrev pub is_gpr : RegClass → Bool
is_gpr RegClass.gpr64 = true
is_gpr RegClass.gpr32 = true
is_gpr _ = false

-- The translation of a place at a class of general registers.
abbrev pub translation : RegClass → Place → RegTranslation
translation RegClass.gpr64 p = at_place NativeRegClass.gpr64 p
translation _ p = at_place NativeRegClass.gpr32 p

-- An instruction on two registers or immediates, and one with a slot as an operand.
abbrev pub plain : Code → OpKind → OpKind → Call
plain code k0 k1 = Call.add_instruction (blank code k0 k1 no_op)

abbrev pub with_slot : ℕ → Code → OpKind → OpKind → Call
with_slot o code k0 k1 =
    Call.add_instruction
      (record (blank code k0 k1 no_op) { base = r15; displacement = o; displ_size = 1 })

abbrev pub load_slot : Register → ℕ → Call
load_slot r o = Call.asm Mnemonic.mov (Arg.reg r ∷ Arg.ptr r15 o ∷ [])

abbrev pub store_slot : ℕ → Register → Call
store_slot o r = Call.asm Mnemonic.mov (Arg.ptr r15 o ∷ Arg.reg r ∷ [])
