-- ===== src/Cpu/Abi.antt =====
-- What the System V calling convention promises of a native function: the callee-saved registers,
-- the stack pointer and the caller's part of the stack are as they were.
use xob.Base.{ℕ, ◌+◌, ◌<◌, ◌≡◌, List, [], ◌∷◌}
use xob.Cpu.{Cpu}

-- The registers of a list hold in `t` what they hold in `s`.
abbrev pub SameRegs : List ℕ → Cpu → Cpu → Type 0
SameRegs [] s t = Unit {0}
SameRegs (j ∷ js) s t = (t.regs j ≡ s.regs j) × SameRegs js s t

-- RBX, RBP, R12 to R15.
abbrev pub callee_saved : List ℕ
callee_saved = 3 ∷ 5 ∷ 12 ∷ 13 ∷ 14 ∷ 15 ∷ []

-- The general registers but RAX, the scratch register, and RSP.
abbrev pub emulated : List ℕ
emulated = 1 ∷ 2 ∷ 3 ∷ 5 ∷ 6 ∷ 7 ∷ 8 ∷ 9 ∷ 10 ∷ 11 ∷ 12 ∷ 13 ∷ 14 ∷ 15 ∷ []

-- `n` is the size of the caller's frame that the code relies on.
pub record Native (n : ℕ) (f : Cpu → Cpu) : Type 0 where
  pub saved : (s : Cpu) → SameRegs callee_saved s (f s)
  pub stack : (s : Cpu) → (f s).regs 4 ≡ s.regs 4
  pub frame : (s : Cpu) (k : ℕ) → k < n → (f s).words (s.regs 4 + k) ≡ s.words (s.regs 4 + k)
