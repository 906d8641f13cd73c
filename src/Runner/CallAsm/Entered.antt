-- ===== src/Runner/CallAsm/Entered.antt =====
-- The state in which `call` jumps to the emulated program.
use xob.Base.{ℕ, ◌+◌, ◌-◌, ◌*◌, ◌%◌, ◌^◌, ◌≤◌, ◌<◌, ◌≡◌, ◌≢◌, ◌⊎◌, ◌∙◌, refl, ap, arith, inl, inr}
use xob.Branch.Returns.{shadow_sp}
use xob.Register.Context.{shadow_sp_offset}
use xob.Runner.CallAsm.{add_align, push_alignment, push_args, link_return, enter}
use xob.Runner.CallAsm.Entry.{
  copy_args-regs, pushed, Room, Arguments, args_rsp, push_args-outside, push_args-Arguments,
  pushed-rsp,
}
use xob.Cpu.{Cpu, add64, put, set_reg}

-- There is room on the stack, and the arguments, the context's shadow stack pointer and the top of
-- the shadow stack are not in that room.
pub record CanEnter (ctx argc argv : ℕ) (s : Cpu) : Type 0 where
  pub stack : (40 + argc * 8 ≤ s.regs 4) × (s.regs 4 < 2 ^ 64)
  pub source : argv + argc * 8 ≤ 2 ^ 64
  pub apart : (argv + argc * 8 + (40 + argc * 8) ≤ s.regs 4) ⊎ (s.regs 4 ≤ argv)
  pub context : ctx + 432 ≤ 2 ^ 64
  pub context_apart :
      (ctx + shadow_sp_offset + (40 + argc * 8) < s.regs 4) ⊎ (s.regs 4 ≤ ctx + shadow_sp_offset)
  pub shadow : s.words (ctx + shadow_sp_offset) + 8 < 2 ^ 64
  pub shadow_apart :
      (s.words (ctx + shadow_sp_offset) + 8 + (40 + argc * 8) < s.regs 4)
      ⊎ (s.regs 4 ≤ s.words (ctx + shadow_sp_offset))
  pub shadow_context :
      (ctx + shadow_sp_offset ≢ s.words (ctx + shadow_sp_offset))
      × (ctx + shadow_sp_offset ≢ s.words (ctx + shadow_sp_offset) + 8)

-- `t` is entered with argc, the arguments and the terminators of argv and envp on the stack, and the
-- return address in the link register and twice on top of the shadow stack.
pub record Entered (ctx argc argv ret : ℕ) (s t : Cpu) : Type 0 where
  pub stack : t.regs 4 + (32 + argc * 8 + argc % 2 * 8) ≡ s.regs 4
  pub arguments : Arguments argc argv (t.regs 4) s t
  pub context : t.regs 15 ≡ ctx
  pub link_register : t.regs 11 ≡ ret
  pub shadow : shadow_sp t ≡ s.words (ctx + shadow_sp_offset)
  pub emulated_address : t.words (shadow_sp t + 8) ≡ ret
  pub native_address : t.words (shadow_sp t) ≡ ret

module _ (ctx argc argv ret : ℕ) (s : Cpu) (c : CanEnter ctx argc argv s) where
  abbrev pub aligned : Cpu
  aligned = push_alignment (add_align argc) (set_reg s 15 ctx)

  pub aligned-rsp : aligned.regs 4 + (8 + argc % 2 * 8) ≡ s.regs 4
  unfolding push_alignment add_align
  aligned-rsp = let r = c.stack in ground arith

  aligned-outside : (a : ℕ) → (a + 16 < s.regs 4) ⊎ (s.regs 4 ≤ a) → aligned.words a ≡ s.words a
  unfolding push_alignment add_align
  aligned-outside a out = let r = c.stack in ground (arith, out)

  aligned-r15 : aligned.regs 15 ≡ ctx
  unfolding push_alignment add_align
  aligned-r15 = ground arith

  pub room : Room argc argv aligned
  room =
      let at = aligned-rsp in
      let r = c.stack in
      record {
        stack = (omega arith, omega arith);
        source = c.source;
        apart = elim c.apart [ inl h ↦ inl (omega arith) | inr h ↦ inr (omega arith) ];
      }

  abbrev pub called : Cpu
  called = push_args argc argv aligned

  called-r15 : called.regs 15 ≡ ctx
  unfolding push_args
  called-r15 =
      ap (λ (f : ℕ → ℕ). f 15) (copy_args-regs argv argc (pushed argc aligned)) ∙ aligned-r15

  pub called-rsp : called.regs 4 + (32 + argc * 8 + argc % 2 * 8) ≡ s.regs 4
  called-rsp =
      let at = aligned-rsp in
      let low = pushed-rsp argc argv aligned room in
      let same = args_rsp argc argv aligned room in omega arith

  called-outside :
      (a : ℕ) → (a + (40 + argc * 8) < s.regs 4) ⊎ (s.regs 4 ≤ a) → called.words a ≡ s.words a
  called-outside a out =
      let at = aligned-rsp in
      let low = pushed-rsp argc argv aligned room in
      push_args-outside argc argv aligned room a
        (elim out [ inl h ↦ inl (omega arith) | inr h ↦ inr (omega arith) ])
      ∙ aligned-outside a (elim out [ inl h ↦ inl (omega arith) | inr h ↦ inr (omega arith) ])

  -- The shadow stack pointer as it is read.
  sp : called.words (add64 (called.regs 15) shadow_sp_offset) ≡ s.words (ctx + shadow_sp_offset)
  sp =
      ap called.words (let at = called-r15 in let b = c.context in omega arith)
      ∙ called-outside (ctx + shadow_sp_offset) c.context_apart

  -- Memory at the end.
  last_words : (ℕ → ℕ)
  last_words =
      put (put called.words (add64 (s.words (ctx + shadow_sp_offset)) 8) ret)
        (s.words (ctx + shadow_sp_offset)) ret

  enter-words : (enter ctx argc argv ret s).words ≡ last_words
  unfolding enter link_return last_words
  enter-words = rw sp refl

  last-inside : (a : ℕ) → called.regs 4 ≤ a → a < s.regs 4 → last_words a ≡ called.words a
  unfolding last_words
  last-inside a lo hi =
      let at = called-rsp in
      let b = c.shadow in let out = c.shadow_apart in ground (arith, at, b, out)

  -- A word on the stack stays as it is.
  pub kept :
      (a v : ℕ)
      → called.regs 4 ≤ a
      → a < s.regs 4
      → called.words a ≡ v
      → (enter ctx argc argv ret s).words a ≡ v
  kept a v lo hi held = ap (λ (f : ℕ → ℕ). f a) enter-words ∙ last-inside a lo hi ∙ held

  -- The words of the alignment correction, above the arguments.
  correction :
      (a : ℕ)
      → aligned.regs 4 ≤ a
      → a < s.regs 4
      → (enter ctx argc argv ret s).words a ≡ aligned.words a
  correction a lo hi =
      let low = pushed-rsp argc argv aligned room in
      let same = args_rsp argc argv aligned room in
      kept a (aligned.words a) (omega arith) hi
        (push_args-outside argc argv aligned room a (inr lo))

  pub padding :
      argc % 2 ≡ 1 → (enter ctx argc argv ret s).words (s.regs 4 - 16) ≡ s.words (s.regs 4 - 16)
  unfolding push_alignment add_align
  padding odd =
      let at = aligned-rsp in
      let r = c.stack in
      correction (s.regs 4 - 16) (omega arith) (omega arith) ∙ ground (arith, odd)

  pub no_padding : argc % 2 ≡ 0 → (enter ctx argc argv ret s).words (s.regs 4 - 8) ≡ 0
  unfolding push_alignment add_align
  no_padding even =
      let at = aligned-rsp in
      let r = c.stack in
      correction (s.regs 4 - 8) (omega arith) (omega arith) ∙ ground (arith, even)

  called-Arguments : Arguments argc argv (called.regs 4) aligned called
  called-Arguments =
      rw (args_rsp argc argv aligned room) (push_args-Arguments argc argv aligned room)

  enter-Arguments : Arguments argc argv (called.regs 4) s (enter ctx argc argv ret s)
  enter-Arguments =
      let low = called-rsp in
      let old = called-Arguments in
      record {
        count = kept _ _ (omega arith) (omega arith) old.count;
        copied = λ i lt. kept _ _ (omega arith) (omega arith) (
            old.copied i lt
            ∙ aligned-outside (argv + i * 8)
                (elim c.apart [ inl h ↦ inl (omega arith) | inr h ↦ inr (omega arith) ]));
        argv_end = kept _ _ (omega arith) (omega arith) old.argv_end;
        envp_end = kept _ _ (omega arith) (omega arith) old.envp_end;
      }

  enter-shadow_sp :
      (enter ctx argc argv ret s).words (ctx + shadow_sp_offset) ≡ s.words (ctx + shadow_sp_offset)
  unfolding last_words
  enter-shadow_sp =
      ap (λ (f : ℕ → ℕ). f (ctx + shadow_sp_offset)) enter-words
      ∙ (let apart = c.shadow_context in let b = c.shadow in ground (arith, apart, b))
      ∙ called-outside (ctx + shadow_sp_offset) c.context_apart

  enter-top : (enter ctx argc argv ret s).words (s.words (ctx + shadow_sp_offset)) ≡ ret
  unfolding last_words
  enter-top = ap (λ (f : ℕ → ℕ). f (s.words (ctx + shadow_sp_offset))) enter-words ∙ ground arith

  enter-second : (enter ctx argc argv ret s).words (s.words (ctx + shadow_sp_offset) + 8) ≡ ret
  unfolding last_words
  enter-second =
      ap (λ (f : ℕ → ℕ). f (s.words (ctx + shadow_sp_offset) + 8)) enter-words
      ∙ (let b = c.shadow in ground (arith, b))

  enter-r15 : (enter ctx argc argv ret s).regs 15 ≡ ctx
  unfolding enter link_return
  enter-r15 = called-r15

  enter-r11 : (enter ctx argc argv ret s).regs 11 ≡ ret
  unfolding enter link_return
  enter-r11 = refl

  pub enter-rsp : (enter ctx argc argv ret s).regs 4 ≡ called.regs 4
  unfolding enter link_return
  enter-rsp = refl

-- `call` enters the emulated program as a process is entered: where there is room on the stack, argc is at the
-- stack pointer, and above it are the arguments and the two terminators; the stack pointer is 16-byte aligned with
-- the one before (it is lower by a multiple of 16); the link register holds the return address, which stands twice on top
-- of the shadow stack.
pub enter-Entered :
    (ctx argc argv ret : ℕ) (s : Cpu)
    → CanEnter ctx argc argv s
    → Entered ctx argc argv ret s (enter ctx argc argv ret s)
      × ((enter ctx argc argv ret s).regs 4 % 16 ≡ s.regs 4 % 16)
enter-Entered ctx argc argv ret s c =
    let at15 = enter-r15 ctx argc argv ret s c in
    let rsp = enter-rsp ctx argc argv ret s c in
    let low = called-rsp ctx argc argv ret s c in
    let sp' : shadow_sp (enter ctx argc argv ret s) ≡ s.words (ctx + shadow_sp_offset) =
      ap (λ (r : ℕ). (enter ctx argc argv ret s).words (r + shadow_sp_offset)) at15
      ∙ enter-shadow_sp ctx argc argv ret s c in
    (
      record {
        stack = omega arith;
        arguments = rw rsp (enter-Arguments ctx argc argv ret s c);
        context = at15;
        link_register = enter-r11 ctx argc argv ret s c;
        shadow = sp';
        emulated_address = rw sp' (enter-second ctx argc argv ret s c);
        native_address = rw sp' (enter-top ctx argc argv ret s c);
      },
      omega arith,
    )
