-- ===== src/Runner/CallAsm/Left.antt =====
-- What is left of the stack when the emulated program returns to `call`.
use native.Mathlib.Decide.{dec_lt}
use xob.Base.{
  ◌⊎◌, ℕ, ◌+◌, ◌-◌, ◌*◌, ◌%◌, ◌^◌, ◌≤◌, ◌<◌, ◌≡◌, ◌∙◌, refl, ap, arith, inl, inr, Bool-cases, ◌==◌,
  ◌&&◌, if◌then◌else◌,
}
use xob.Runner.CallAsm.{enter, leave}
use xob.Runner.CallAsm.Entered.{CanEnter, enter-Entered, padding, no_padding}
use xob.Cpu.{Cpu, add64}

-- Where the last pops read: behind argc, the arguments and the terminators.
abbrev after_args : ℕ → Cpu → ℕ
after_args argc u = add64 (add64 (add64 (u.regs 4) 8) (argc * 2 ^ 3 % 2 ^ 64)) 16

leave-pops :
    (u : Cpu) (argc : ℕ)
    → u.words (u.regs 4) ≡ argc
    → (leave u).regs 4 ≡ (
        if u.words (after_args argc u) == 0
        then add64 (after_args argc u) 8
        else add64 (add64 (after_args argc u) 8) 8)
unfolding leave
leave-pops u argc count = elim (Bool-cases (u.words (after_args argc u) == 0)) [
  | inl e ↦ rw count (rw e refl)
  | inr e ↦ rw count (rw e refl)
]

module _ (u : Cpu) (argc top : ℕ) (count : u.words (u.regs 4) ≡ argc)
    (size : u.regs 4 + (32 + argc * 8 + argc % 2 * 8) ≡ top) (high : top < 2 ^ 64) where
  place : after_args argc u + (8 + argc % 2 * 8) ≡ top
  place = omega arith

  leave-even : argc % 2 ≡ 0 → u.words (top - 8) ≡ 0 → (leave u).regs 4 ≡ top
  leave-even even zero' =
      let at : after_args argc u ≡ top - 8 = let q = place in omega arith in
      leave-pops u argc count ∙ rw (at, zero') (let q = place in omega arith)

  leave-odd :
      (pad : ℕ)
      → argc % 2 ≡ 1
      → u.words (top - 16) ≡ pad
      → (leave u).regs 4 + (if pad == 0 then 8 else 0) ≡ top
  leave-odd pad odd held =
      let at : after_args argc u ≡ top - 16 = let q = place in omega arith in
      let q = place in rw (leave-pops u argc count, at, held) (ground arith)

parity : (n : ℕ) → (n % 2 ≡ 1) ⊎ (n % 2 ≡ 0)
parity n = elim (dec_lt (n % 2) 1) [ yes h ↦ inr (omega arith) | no h ↦ inl (omega arith) ]

-- The stack pointer after a return to `call`, where the emulated program has kept its stack: it is what it was before,
-- unless the number of arguments is odd and the word of padding, which is never written, is 0. Then it is 8 too low.
pub leave-enter :
    (ctx argc argv ret : ℕ) (s u : Cpu)
    → CanEnter ctx argc argv s
    → u.regs 4 ≡ (enter ctx argc argv ret s).regs 4
    → ((a : ℕ) → u.regs 4 ≤ a → a < s.regs 4 → u.words a ≡ (enter ctx argc argv ret s).words a)
    → (leave u).regs 4 + (if argc % 2 == 1 && s.words (s.regs 4 - 16) == 0 then 8 else 0) ≡ s.regs 4
leave-enter ctx argc argv ret s u c same_rsp same =
    let e = (enter-Entered ctx argc argv ret s c).0 in
    let size : u.regs 4 + (32 + argc * 8 + argc % 2 * 8) ≡ s.regs 4 =
      ap (λ (r : ℕ). r + (32 + argc * 8 + argc % 2 * 8)) same_rsp ∙ e.stack in
    let count : u.words (u.regs 4) ≡ argc =
      same (u.regs 4) (omega arith) (omega arith)
      ∙ ap (enter ctx argc argv ret s).words same_rsp
      ∙ e.arguments.count in
    let high = c.stack.1 in
    elim (parity argc) [
      | inl odd ↦ rw odd (
          leave-odd u argc (s.regs 4) count size high (s.words (s.regs 4 - 16)) odd
            (same (s.regs 4 - 16) (omega arith) (omega arith) ∙ padding ctx argc argv ret s c odd))
      | inr even ↦ rw even (
          let left = leave-even u argc (s.regs 4) count size high even (
            same (s.regs 4 - 8) (omega arith) (omega arith)
            ∙ no_padding ctx argc argv ret s c even) in
          omega arith)
    ]
