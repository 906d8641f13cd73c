-- ===== src/Cpu.antt =====
-- The processor as the hand-written assembly of src/runner/callbacks.rs and src/wrapped.rs, and the code that
-- src/runner/compiler/branch.rs and src/wrapped/proxy.rs emit for calls and returns, use it: 64-bit
-- registers, memory as the 64-bit word at an address, the zero flag of a comparison. Words are only
-- used at addresses that differ by multiples of 8.
pub mod Abi
use xob.Base.{
  ℕ, zero, suc, ◌+◌, ◌-◌, ◌%◌, ◌^◌, Bool, true, false, List, [], ◌∷◌, Option, none, some, ◌==◌,
  if◌then◌else◌, ◌++◌, ◌≡◌, refl,
}
use xob.Vendor.Iced.{Register, Code, OpKind, Instruction, Mnemonic, Arg, Call}

pub record Cpu : Type 0 where
  pub regs : ℕ → ℕ
  pub words : ℕ → ℕ
  pub zf : Bool

abbrev pub put : (ℕ → ℕ) → ℕ → ℕ → ℕ → ℕ
put f k v j = if k == j then v else f j

abbrev pub add64 : ℕ → ℕ → ℕ
add64 a b = (a + b) % 2 ^ 64

abbrev pub sub64 : ℕ → ℕ → ℕ
sub64 a b = (a + (2 ^ 64 - b)) % 2 ^ 64

-- `-n` as a displacement.
abbrev pub minus : ℕ → ℕ
minus n = 2 ^ 64 - n

abbrev pub set_reg : Cpu → ℕ → ℕ → Cpu
set_reg s k v = record s { regs = put s.regs k v }

abbrev pub set_word : Cpu → ℕ → ℕ → Cpu
set_word s a v = record s { words = put s.words a v }

-- What the code runs in: the addresses of its labels, and the native functions that return, with
-- what a call of them leaves.
pub record World : Type 0 where
  pub label_addr : ℕ → ℕ
  pub native : ℕ → Option (Cpu → Cpu)

-- What one instruction does: go on, go on behind the next anonymous label, leave by a jump or by a
-- call of code that does not return, or something that is not modelled.
pub data Next : Type 0 where
  step skip : Cpu → Next
  jumped called : ℕ → Cpu → Next
  unknown : Next

abbrev pub call_native : Option (Cpu → Cpu) → ℕ → Cpu → Next
call_native none target s = Next.called target s
call_native (some f) target s = Next.step (f s)

abbrev pub value : Cpu → Register → Option ℕ
value s (Register.r64 n) = some (s.regs n)
value s _ = none

-- `mov`, by its operands.
abbrev pub move : World → Arg → Arg → Cpu → Next
move w (Arg.reg (Register.r64 d)) (Arg.reg (Register.r64 r)) s = Next.step (set_reg s d (s.regs r))
move w (Arg.reg (Register.r64 d)) (Arg.imm n) s = Next.step (set_reg s d n)
move w (Arg.reg (Register.r64 d)) (Arg.ptr (Register.r64 b) o) s =
    Next.step (set_reg s d (s.words (add64 (s.regs b) o)))
move w (Arg.ptr (Register.r64 b) o) (Arg.reg (Register.r64 r)) s =
    Next.step (set_word s (add64 (s.regs b) o) (s.regs r))
move w _ _ s = Next.unknown

abbrev pub load_address : World → Arg → Arg → Cpu → Next
load_address w (Arg.reg (Register.r64 d)) (Arg.ptr (Register.r64 b) o) s =
    Next.step (set_reg s d (add64 (s.regs b) o))
load_address w (Arg.reg (Register.r64 d)) (Arg.ptr_label l) s =
    Next.step (set_reg s d (w.label_addr l))
load_address w _ _ s = Next.unknown

abbrev pub push_word : ℕ → Cpu → Cpu
push_word v s = record s {
  regs = put s.regs 4 (sub64 (s.regs 4) 8);
  words = put s.words (sub64 (s.regs 4) 8) v;
}

abbrev pub pop_into : ℕ → Cpu → Cpu
pop_into d s = record s { regs = put (put s.regs 4 (add64 (s.regs 4) 8)) d (s.words (s.regs 4)) }

unfoldable pub exec_asm : World → Mnemonic → List Arg → Cpu → Next
exec_asm w Mnemonic.mov (d ∷ r ∷ []) s = move w d r s
exec_asm w Mnemonic.lea (d ∷ r ∷ []) s = load_address w d r s
exec_asm w Mnemonic.add (Arg.reg (Register.r64 d) ∷ Arg.imm n ∷ []) s =
    Next.step (record s { regs = put s.regs d (add64 (s.regs d) n); zf = add64 (s.regs d) n == 0 })
exec_asm w Mnemonic.sub (Arg.reg (Register.r64 d) ∷ Arg.imm n ∷ []) s =
    Next.step (record s { regs = put s.regs d (sub64 (s.regs d) n); zf = sub64 (s.regs d) n == 0 })
exec_asm w Mnemonic.cmp (Arg.reg (Register.r64 a) ∷ Arg.reg (Register.r64 b) ∷ []) s =
    Next.step (record s { zf = s.regs a == s.regs b })
exec_asm w Mnemonic.push (Arg.reg (Register.r64 r) ∷ []) s = Next.step (push_word (s.regs r) s)
exec_asm w Mnemonic.pop (Arg.reg (Register.r64 d) ∷ []) s = Next.step (pop_into d s)
exec_asm w Mnemonic.jne (Arg.label _ ∷ []) s = if s.zf then Next.step s else Next.skip s
exec_asm w Mnemonic.jmp (Arg.reg (Register.r64 r) ∷ []) s = Next.jumped (s.regs r) s
exec_asm w Mnemonic.call (Arg.reg (Register.r64 r) ∷ []) s =
    call_native (w.native (s.regs r)) (s.regs r) s
exec_asm w Mnemonic.call (Arg.imm target ∷ []) s = call_native (w.native target) target s
exec_asm w _ _ s = Next.unknown

-- `mov [base + displacement], reg`, the only instruction here that is not a method.
unfoldable pub exec_instruction : World → Code → Instruction → Cpu → Next
exec_instruction w Code.mov_rm64_r64 i s = elim i.op1 [
  | OpKind.register r ↦ move w (Arg.ptr i.base i.displacement) (Arg.reg r) s
  | _ ↦ Next.unknown
]
exec_instruction w _ i s = Next.unknown

unfoldable pub exec : World → Call → Cpu → Next
unfolding exec_asm exec_instruction
exec w (Call.asm m args) s = exec_asm w m args s
exec w (Call.add_instruction i) s = exec_instruction w i.code i s
exec w _ s = Next.step s

abbrev pub is_anonymous_label : Call → Bool
is_anonymous_label Call.anonymous_label = true
is_anonymous_label _ = false

-- Whether the code is passed over up to the next anonymous label.
pub data Mode : Type 0 where
  running passing : Cpu → Mode
  left : Next → Mode

abbrev pub proceed : Next → Mode
proceed (Next.step s) = Mode.running s
proceed (Next.skip s) = Mode.passing s
proceed n = Mode.left n

unfoldable pub tick : World → Call → Mode → Mode
unfolding exec
tick w c (Mode.running s) = proceed (exec w c s)
tick w c (Mode.passing s) = if is_anonymous_label c then Mode.running s else Mode.passing s
tick w c (Mode.left n) = Mode.left n

unfoldable pub run : World → List Call → Mode → Mode
unfolding tick
run w [] m = m
run w (c ∷ cs) m = run w cs (tick w c m)

pub run-append :
    (w : World) (cs ds : List Call) (m : Mode) → run w (cs ++ ds) m ≡ run w ds (run w cs m)
unfolding run
run-append w [] ds m = refl
run-append w (c ∷ cs) ds m = run-append w cs ds (tick w c m)
