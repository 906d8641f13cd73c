-- ===== src/Runner/CallAsm/Entry.antt =====
-- The stack on which `call` enters the emulated program.
use xob.Base.{ℕ, zero, suc, ◌+◌, ◌*◌, ◌%◌, ◌^◌, ◌≤◌, ◌<◌, ◌≡◌, ◌⊎◌, ◌∙◌, refl, ap, arith, inl, inr}
use native.Mathlib.Decide.{dec_lt}
use xob.Runner.CallAsm.{copy_args, push_args, lower_stack}
use xob.Cpu.{Cpu, push_word}

pub copy_args-regs : (argv n : ℕ) (s : Cpu) → (copy_args argv n s).regs ≡ s.regs
unfolding copy_args
copy_args-regs argv zero s = refl
copy_args-regs argv (suc n) s = copy_args-regs argv n _

-- Neither the arguments nor their copies wrap, and they do not overlap.
abbrev Copyable : ℕ → ℕ → Cpu → Type 0
Copyable argv n s =
    (s.regs 4 + 8 + n * 8 ≤ 2 ^ 64)
    × (argv + n * 8 ≤ 2 ^ 64)
    × ((argv + n * 8 ≤ s.regs 4 + 8) ⊎ (s.regs 4 + 8 + n * 8 ≤ argv))

copy_args-outside :
    (argv n : ℕ) (s : Cpu) (a : ℕ)
    → s.regs 4 + 8 + n * 8 ≤ 2 ^ 64
    → (a < s.regs 4 + 8) ⊎ (s.regs 4 + 8 + n * 8 ≤ a)
    → (copy_args argv n s).words a ≡ s.words a
unfolding copy_args
copy_args-outside argv zero s a top out = refl
copy_args-outside argv (suc n) s a top out =
    copy_args-outside argv n _ a (omega arith)
      (elim out [ inl h ↦ inl (omega arith) | inr h ↦ inr (omega arith) ])
    ∙ ground (arith, out)

copy_args-copies :
    (argv n : ℕ) (s : Cpu) (i : ℕ)
    → Copyable argv n s
    → i < n
    → (copy_args argv n s).words (s.regs 4 + 8 + i * 8) ≡ s.words (argv + i * 8)
unfolding copy_args
copy_args-copies argv zero s i c lt = absurd (omega arith)
copy_args-copies argv (suc n) s i (top, end, apart) lt = elim (dec_lt i n) [
  | yes h ↦
      copy_args-copies argv n _ i
        (
          omega arith,
          omega arith,
          elim apart [ inl h' ↦ inl (omega arith) | inr h' ↦ inr (omega arith) ],
        )
        h
      ∙ ground (arith, apart)
  | no h ↦
      (let here : i ≡ n = omega arith in
        rw here (
          copy_args-outside argv n _ (s.regs 4 + 8 + n * 8) (omega arith) (inr (omega arith))
          ∙ ground (arith, top, end)))
]

-- The stack once argc is pushed, before the arguments are copied.
abbrev pub pushed : ℕ → Cpu → Cpu
pushed argc s = push_word argc (lower_stack (argc * 2 ^ 3 % 2 ^ 64) (push_word 0 (push_word 0 s)))

-- There is room for argc, the arguments and two terminators, and the arguments are not in that room.
pub record Room (argc argv : ℕ) (s : Cpu) : Type 0 where
  pub stack : (24 + argc * 8 ≤ s.regs 4) × (s.regs 4 < 2 ^ 64)
  pub source : argv + argc * 8 ≤ 2 ^ 64
  pub apart : (argv + argc * 8 + (24 + argc * 8) ≤ s.regs 4) ⊎ (s.regs 4 ≤ argv)

-- Words at and above `lo` are argc, the arguments, and two zeros.
pub record Arguments (argc argv lo : ℕ) (s t : Cpu) : Type 0 where
  pub count : t.words lo ≡ argc
  pub copied : (i : ℕ) → i < argc → t.words (lo + 8 + i * 8) ≡ s.words (argv + i * 8)
  pub argv_end : t.words (lo + 8 + argc * 8) ≡ 0
  pub envp_end : t.words (lo + 16 + argc * 8) ≡ 0

module _ (argc argv : ℕ) (s : Cpu) (r : Room argc argv s) where
  pub pushed-rsp : (pushed argc s).regs 4 + (24 + argc * 8) ≡ s.regs 4
  pushed-rsp = omega arith

  pushed-outside :
      (a : ℕ) → (a < (pushed argc s).regs 4) ⊎ (s.regs 4 ≤ a) → (pushed argc s).words a ≡ s.words a
  pushed-outside a out = ground (arith, out, pushed-rsp)

  pushed-Copyable : Copyable argv argc (pushed argc s)
  pushed-Copyable =
      let low = pushed-rsp in
      (
        omega arith,
        r.source,
        elim r.apart [ inl h ↦ inl (omega arith) | inr h ↦ inr (omega arith) ],
      )

  pub args_rsp : (push_args argc argv s).regs 4 ≡ (pushed argc s).regs 4
  unfolding push_args
  args_rsp = ap (λ (f : ℕ → ℕ). f 4) (copy_args-regs argv argc (pushed argc s))

  pub push_args-outside :
      (a : ℕ)
      → (a < (pushed argc s).regs 4) ⊎ (s.regs 4 ≤ a)
      → (push_args argc argv s).words a ≡ s.words a
  unfolding push_args
  push_args-outside a out =
      let low = pushed-rsp in
      copy_args-outside argv argc (pushed argc s) a (omega arith)
        (elim out [ inl h ↦ inl (omega arith) | inr h ↦ inr (omega arith) ])
      ∙ pushed-outside a out

  pub push_args-Arguments : Arguments argc argv ((pushed argc s).regs 4) s (push_args argc argv s)
  unfolding push_args
  push_args-Arguments =
      let low = pushed-rsp in
      record {
        count =
            copy_args-outside argv argc (pushed argc s) _ (omega arith) (inl (omega arith))
            ∙ ground arith;
        copied = λ i lt.
            copy_args-copies argv argc (pushed argc s) i pushed-Copyable lt
            ∙ pushed-outside (argv + i * 8)
                (elim r.apart [ inl h ↦ inl (omega arith) | inr h ↦ inr (omega arith) ]);
        argv_end =
            copy_args-outside argv argc (pushed argc s) _ (omega arith) (inr (omega arith))
            ∙ ground (arith, low);
        envp_end =
            copy_args-outside argv argc (pushed argc s) _ (omega arith) (inr (omega arith))
            ∙ ground (arith, low);
      }
