-- ===== src/Branch/Returns/Return.antt =====
-- RET: the top of the shadow stack is where to go on, if it is for the address in the link register.
use xob.Base.{
  ℕ, suc, ◌+◌, ◌≤◌, ◌<◌, ◌^◌, ◌≡◌, ◌≢◌, ◌∙◌, refl, sym, ap, arith, true, false, List, [], ◌∷◌, ◌++◌,
  append_assoc, none, ◌==◌,
}
use xob.Outcome.{ok}
use xob.Vendor.{Vendor}
use xob.Vendor.Iced.{Mnemonic, Arg, Call, rax, r10, r11, r15}
use xob.Register.Context.{param_offset, shadow_sp_offset}
use xob.ExecPool.{Callbacks}
use xob.Assembler.{Assembler, asm, emit, fwd, fresh, anonymous_label}
use xob.InstrUtils.{make_call}
use xob.Machine.{Accepting}
use xob.Branch.{make_return}
use xob.Branch.Returns.{Linked, context_slot, shadow_sp}
use xob.Cpu.{Cpu, World, Next, Mode, run, tick, exec, exec_asm, add64, sub64, put}
use xob.Cpu.Abi.{SameRegs}

abbrev return_code : ℕ → ℕ → List Call
return_code indirect_jump l =
    Call.asm Mnemonic.push (Arg.reg r10 ∷ [])
    ∷ Call.asm Mnemonic.mov (Arg.reg r10 ∷ Arg.ptr r15 shadow_sp_offset ∷ [])
    ∷ Call.asm Mnemonic.mov (Arg.reg rax ∷ Arg.ptr r10 8 ∷ [])
    ∷ Call.asm Mnemonic.cmp (Arg.reg r11 ∷ Arg.reg rax ∷ [])
    ∷ Call.asm Mnemonic.mov (Arg.reg rax ∷ Arg.ptr r10 0 ∷ [])
    ∷ Call.asm Mnemonic.lea (Arg.reg r10 ∷ Arg.ptr r10 16 ∷ [])
    ∷ Call.asm Mnemonic.mov (Arg.ptr r15 shadow_sp_offset ∷ Arg.reg r10 ∷ [])
    ∷ Call.asm Mnemonic.pop (Arg.reg r10 ∷ [])
    ∷ Call.fwd l
    ∷ Call.asm Mnemonic.jne (Arg.label l ∷ [])
    ∷ Call.asm Mnemonic.jmp (Arg.reg rax ∷ [])
    ∷ Call.anonymous_label
    ∷ Call.asm Mnemonic.mov (Arg.ptr r15 param_offset ∷ Arg.reg r11 ∷ [])
    ∷ Call.asm Mnemonic.mov (Arg.reg rax ∷ Arg.imm indirect_jump ∷ [])
    ∷ Call.asm Mnemonic.call (Arg.reg rax ∷ [])
    ∷ []

module _ ⦃v : Vendor⦄ (acc : Accepting v) where
  make_return-calls :
      ⦃cb : Callbacks⦄ (a : Assembler)
      → make_return a ≡ (
        ok tt,
        record {
          calls = a.calls ++ return_code cb.indirect_jump_landing_pad (suc a.labels);
          labels = suc a.labels;
        },
      )
  unfolding make_return make_call asm fwd fresh anonymous_label emit
  make_return-calls a = simp (acc.accepts_all, append_assoc)

-- The registers but RAX.
abbrev pub but_scratch : List ℕ
but_scratch = 1 ∷ 2 ∷ 3 ∷ 4 ∷ 5 ∷ 6 ∷ 7 ∷ 8 ∷ 9 ∷ 10 ∷ 11 ∷ 12 ∷ 13 ∷ 14 ∷ 15 ∷ []

-- There is room on both stacks, and the word below the stack pointer, the context's two words and
-- the two words on top of the shadow stack are different words.
pub record CanReturn (s : Cpu) : Type 0 where
  pub stack : (8 ≤ s.regs 4) × (s.regs 4 < 2 ^ 64)
  pub context : s.regs 15 + 432 ≤ 2 ^ 64
  pub shadow : shadow_sp s + 16 < 2 ^ 64
  pub stack_context : s.regs 4 ≢ context_slot s + 8
  pub stack_shadow : (s.regs 4 ≢ shadow_sp s + 8) × (s.regs 4 ≢ shadow_sp s + 16)

-- `t` is `s` with the top of the shadow stack gone.
pub record Popped (s t : Cpu) : Type 0 where
  pub moved : shadow_sp t ≡ shadow_sp s + 16
  pub kept : SameRegs but_scratch s t

abbrev pushed : Cpu → ℕ → ℕ
pushed s = put s.words (sub64 (s.regs 4) 8) (s.regs 10)

-- The shadow stack pointer as it is read.
abbrev sp : Cpu → ℕ
sp s = pushed s (add64 (s.regs 15) shadow_sp_offset)

abbrev popped_words : Cpu → ℕ → ℕ
popped_words s = put (pushed s) (add64 (s.regs 15) shadow_sp_offset) (add64 (sp s) 16)

-- The state at the conditional jump, `found` for the comparison.
abbrev at_jump : Cpu → Cpu
at_jump s = record {
  regs =
      put
        (put
          (put
            (put
              (put (put (put s.regs 4 (sub64 (s.regs 4) 8)) 10 (sp s)) 0
                (pushed s (add64 (sp s) 8)))
              0 (pushed s (add64 (sp s) 0)))
            10 (add64 (sp s) 16))
          4 (add64 (sub64 (s.regs 4) 8) 8))
        10 (popped_words s (sub64 (s.regs 4) 8));
  words = popped_words s;
  zf = s.regs 11 == pushed s (add64 (sp s) 8);
}

-- Where the comparison fails, the link register is passed to the callback.
abbrev at_miss : ℕ → Cpu → Cpu
at_miss indirect_jump s = record {
  regs = put (at_jump s).regs 0 indirect_jump;
  words = put (popped_words s) (add64 (s.regs 15) param_offset) (s.regs 11);
  zf = (at_jump s).zf;
}

run-hit :
    (w : World) (indirect_jump l : ℕ) (s : Cpu)
    → (s.regs 11 == pushed s (add64 (sp s) 8)) ≡ true
    → run w (return_code indirect_jump l) (Mode.running s)
      ≡ Mode.left (Next.jumped ((at_jump s).regs 0) (at_jump s))
unfolding run tick exec exec_asm
run-hit w indirect_jump l s h = rw h (rw (sym h) refl)

run-miss :
    (w : World) (indirect_jump l : ℕ) (s : Cpu)
    → w.native indirect_jump ≡ none
    → (s.regs 11 == pushed s (add64 (sp s) 8)) ≡ false
    → run w (return_code indirect_jump l) (Mode.running s)
      ≡ Mode.left (Next.called indirect_jump (at_miss indirect_jump s))
unfolding run tick exec exec_asm
run-miss w indirect_jump l s gone h = rw h (rw gone (rw (sym h) refl))

module _ (s : Cpu) (c : CanReturn s) where
  sp-shadow_sp : sp s ≡ shadow_sp s
  sp-shadow_sp = ground arith

  top : pushed s (add64 (sp s) 0) ≡ s.words (shadow_sp s)
  top = rw sp-shadow_sp (ground arith)

  second : pushed s (add64 (sp s) 8) ≡ s.words (shadow_sp s + 8)
  second = rw sp-shadow_sp (ground arith)

  restored : popped_words s (sub64 (s.regs 4) 8) ≡ s.regs 10
  restored = ground arith

  new_sp : popped_words s (context_slot s) ≡ add64 (sp s) 16
  new_sp = ground arith

  at_jump-Popped : Popped s (at_jump s)
  at_jump-Popped = record {
    moved = rw (new_sp, sp-shadow_sp) (omega arith);
    kept = (
      refl,
      (
        refl,
        (
          refl,
          (
            omega arith,
            (
              refl,
              (
                refl,
                (refl, (refl, (refl, (restored, (refl, (refl, (refl, (refl, (refl, tt))))))))),
              ),
            ),
          ),
        ),
      ),
    );
  }

  param-new_sp :
      (n : ℕ)
      → put (popped_words s) (add64 (s.regs 15) param_offset) n (context_slot s) ≡ add64 (sp s) 16
  param-new_sp n = ground arith

  param-at :
      (m : ℕ → ℕ) (n : ℕ) → put m (add64 (s.regs 15) param_offset) n (s.regs 15 + param_offset) ≡ n
  param-at m n = ground arith

  at_miss-Popped : (n : ℕ) → Popped s (at_miss n s)
  at_miss-Popped n = record {
    moved = rw (param-new_sp (s.regs 11), sp-shadow_sp) (omega arith);
    kept = at_jump-Popped.kept;
  }

-- Where iced refuses nothing: RET after a call. If a call has put its pair of addresses on the shadow
-- stack, and the shadow stack pointer, the pair and the link register are what the call left, the code of RET jumps to
-- the return label of the call, with the shadow stack pointer as it was before the call and every register
-- but the scratch register as before RET.
pub make_return-Linked :
    ⦃v : Vendor⦄ ⦃cb : Callbacks⦄ (acc : Accepting v) (a : Assembler) (w : World) (ret_addr l : ℕ)
    (s t u : Cpu)
    → Linked w ret_addr l s t
    → CanReturn u
    → shadow_sp u ≡ shadow_sp t
    → u.words (shadow_sp u) ≡ t.words (shadow_sp t)
    → u.words (shadow_sp u + 8) ≡ t.words (shadow_sp t + 8)
    → u.regs 11 ≡ t.regs 11
    → (cs : List Call) × (r : Cpu) × (make_return a
        ≡ (ok tt, record { calls = a.calls ++ cs; labels = suc a.labels }))
      × (run w cs (Mode.running u) ≡ Mode.left (Next.jumped (w.label_addr l) r))
      × (shadow_sp r ≡ shadow_sp s)
      × SameRegs but_scratch u r
make_return-Linked ⦃cb = cb⦄ acc a w ret_addr l s t u linked c same_sp same_top same_second
      same_link =
    let found : u.regs 11 ≡ pushed u (add64 (sp u) 8) =
      same_link
      ∙ linked.link_register
      ∙ sym linked.emulated_address
      ∙ sym same_second
      ∙ sym (second u c) in
    let target : pushed u (add64 (sp u) 0) ≡ w.label_addr l =
      top u c ∙ same_top ∙ linked.native_address in
    let gone = at_jump-Popped u c in
    (
      return_code cb.indirect_jump_landing_pad (suc a.labels),
      at_jump u,
      make_return-calls acc a,
      run-hit w cb.indirect_jump_landing_pad (suc a.labels) u (ground (arith, found))
          ∙ ap (λ (n : ℕ). Mode.left (Next.jumped n (at_jump u))) target,
      (let moved = linked.moved in let up = gone.moved in rw up (rw same_sp moved)),
      gone.kept,
    )

-- Where iced refuses nothing: if the top of the shadow stack is for another address than the one in
-- the link register, the code of RET calls the landing pad for indirect jumps with the link register as its parameter; the
-- pair is popped all the same, and no register but the scratch register has changed.
pub make_return-misses :
    ⦃v : Vendor⦄ ⦃cb : Callbacks⦄ (acc : Accepting v) (a : Assembler) (w : World) (u : Cpu)
    → CanReturn u
    → w.native cb.indirect_jump_landing_pad ≡ none
    → u.regs 11 ≢ u.words (shadow_sp u + 8)
    → (cs : List Call) × (r : Cpu) × (make_return a
        ≡ (ok tt, record { calls = a.calls ++ cs; labels = suc a.labels }))
      × (run w cs (Mode.running u) ≡ Mode.left (Next.called cb.indirect_jump_landing_pad r))
      × (r.words (r.regs 15 + param_offset) ≡ u.regs 11)
      × Popped u r
make_return-misses ⦃cb = cb⦄ acc a w u c gone differ =
    let other = second u c in
    (
      return_code cb.indirect_jump_landing_pad (suc a.labels),
      at_miss cb.indirect_jump_landing_pad u,
      make_return-calls acc a,
      run-miss w cb.indirect_jump_landing_pad (suc a.labels) u gone (ground (arith, differ, other)),
      param-at u c (popped_words u) (u.regs 11),
      at_miss-Popped u c cb.indirect_jump_landing_pad,
    )
