-- ===== src/Branch/Returns.antt =====
-- The shadow stack of return addresses: what BL and BLR push, and what RET does with it.
pub mod Return
use xob.Base.{
  ℕ, suc, ◌+◌, ◌-◌, ◌≤◌, ◌<◌, ◌^◌, ◌%◌, ◌≡◌, ◌≢◌, ◌∙◌, refl, ap, arith, List, [], ◌∷◌, ◌++◌,
  append_assoc, some, none, ◌==◌, Bool-cases, inl, inr,
}
use xob.Outcome.{ok}
use xob.Vendor.{Vendor}
use xob.Vendor.Bad64
use xob.Vendor.Iced.{Code, OpKind, Mnemonic, Arg, Call, Register, rax, r10, r11, r15}
use xob.Register.Context.{param_offset, shadow_sp_offset}
use xob.ExecPool.{Callbacks}
use xob.Assembler.{
  Assembler, asm, emit, fwd, fresh, anonymous_label, add_instruction, construct, blank, no_op,
  with_base_displ,
}
use xob.InstrUtils.{make_call}
use xob.Machine.{Accepting}
use xob.Branch.{push_shadow_stack, link, make_return}
use xob.Cpu.{Cpu, World, Next, Mode, run, tick, exec, exec_asm, exec_instruction, add64, sub64, put}
use xob.Cpu.Abi.{SameRegs}

-- The calls of `link`: the link register, and the pair of return addresses on the shadow stack.
abbrev link_code : ℕ → ℕ → List Call
link_code ret_addr l =
    Call.asm Mnemonic.mov (Arg.reg r11 ∷ Arg.imm ret_addr ∷ [])
    ∷ Call.fwd l
    ∷ Call.asm Mnemonic.push (Arg.reg r10 ∷ [])
    ∷ Call.asm Mnemonic.mov (Arg.reg r10 ∷ Arg.ptr r15 shadow_sp_offset ∷ [])
    ∷ Call.asm Mnemonic.sub (Arg.reg r10 ∷ Arg.imm 16 ∷ [])
    ∷ Call.add_instruction
        (with_base_displ r10 8 (blank Code.mov_rm64_r64 OpKind.memory (OpKind.register r11) no_op))
    ∷ Call.asm Mnemonic.lea (Arg.reg rax ∷ Arg.ptr_label l ∷ [])
    ∷ Call.asm Mnemonic.mov (Arg.ptr r10 0 ∷ Arg.reg rax ∷ [])
    ∷ Call.asm Mnemonic.mov (Arg.ptr r15 shadow_sp_offset ∷ Arg.reg r10 ∷ [])
    ∷ Call.asm Mnemonic.pop (Arg.reg r10 ∷ [])
    ∷ []

module _ ⦃v : Vendor⦄ (acc : Accepting v) where
  link-calls :
      ⦃cb : Callbacks⦄ (i : Bad64.Instruction) (a : Assembler)
      → link i a ≡ (
        ok tt,
        record {
          calls = a.calls ++ link_code (i.address + 4) (suc a.labels);
          labels = suc a.labels;
        },
      )
  unfolding link push_shadow_stack asm fwd fresh add_instruction construct emit
  link-calls i a = simp (acc.accepts_all, acc.constructs_all, append_assoc)

-- The context's word for the shadow stack pointer.
abbrev pub context_slot : Cpu → ℕ
context_slot s = s.regs 15 + shadow_sp_offset

-- The shadow stack pointer.
abbrev pub shadow_sp : Cpu → ℕ
shadow_sp s = s.words (context_slot s)

-- The registers but RAX and R11.
abbrev but_link : List ℕ
but_link = 1 ∷ 2 ∷ 3 ∷ 4 ∷ 5 ∷ 6 ∷ 7 ∷ 8 ∷ 9 ∷ 10 ∷ 12 ∷ 13 ∷ 14 ∷ 15 ∷ []

-- There is room on both stacks, and the word below the stack pointer, the context's word for the
-- shadow stack pointer and the two words below that pointer are different words.
pub record CanLink (s : Cpu) : Type 0 where
  pub stack : (8 ≤ s.regs 4) × (s.regs 4 < 2 ^ 64)
  pub context : s.regs 15 + 432 ≤ 2 ^ 64
  pub shadow : (16 ≤ shadow_sp s) × (shadow_sp s < 2 ^ 64)
  pub stack_context : s.regs 4 ≢ context_slot s + 8
  pub stack_shadow : (s.regs 4 ≢ shadow_sp s) × (s.regs 4 + 8 ≢ shadow_sp s)
  pub context_shadow : (context_slot s + 8 ≢ shadow_sp s) × (context_slot s + 16 ≢ shadow_sp s)

-- `t` is `s` with the return address in the link register, and with it and the address of the return label on the
-- shadow stack.
pub record Linked (w : World) (ret_addr l : ℕ) (s t : Cpu) : Type 0 where
  pub link_register : t.regs 11 ≡ ret_addr
  pub moved : shadow_sp t + 16 ≡ shadow_sp s
  pub emulated_address : t.words (shadow_sp t + 8) ≡ ret_addr
  pub native_address : t.words (shadow_sp t) ≡ w.label_addr l
  pub kept : SameRegs but_link s t

-- Memory as `link` writes it, step by step.
abbrev link_pushed : Cpu → ℕ → ℕ
link_pushed s = put s.words (sub64 (s.regs 4) 8) (s.regs 10)

abbrev link_top : Cpu → ℕ
link_top s = sub64 (link_pushed s (add64 (s.regs 15) shadow_sp_offset)) 16

abbrev link_words : ℕ → ℕ → Cpu → ℕ → ℕ
link_words ret_addr label s =
    put (put (put (link_pushed s) (add64 (link_top s) 8) ret_addr) (add64 (link_top s) 0) label)
      (add64 (s.regs 15) shadow_sp_offset) (link_top s)

abbrev after_link : ℕ → ℕ → Cpu → Cpu
after_link ret_addr label s = record {
  regs =
      put
        (put
          (put
            (put
              (put (put (put s.regs 11 ret_addr) 4 (sub64 (s.regs 4) 8)) 10
                (link_pushed s (add64 (s.regs 15) shadow_sp_offset)))
              10 (link_top s))
            0 label)
          4 (add64 (sub64 (s.regs 4) 8) 8))
        10 (link_words ret_addr label s (sub64 (s.regs 4) 8));
  words = link_words ret_addr label s;
  zf = link_top s == 0;
}

run-link :
    (w : World) (ret_addr l : ℕ) (s : Cpu)
    → run w (link_code ret_addr l) (Mode.running s)
      ≡ Mode.running (after_link ret_addr (w.label_addr l) s)
unfolding run tick exec exec_asm exec_instruction
run-link w ret_addr l s = refl

module _ (w : World) (ra l : ℕ) (s : Cpu) (c : CanLink s) where
  top : link_top s + 16 ≡ shadow_sp s
  top = ground arith

  -- The pointer that `link` leaves.
  new_sp : shadow_sp (after_link ra (w.label_addr l) s) ≡ link_top s
  new_sp = ground arith

  at_top : link_words ra (w.label_addr l) s (link_top s) ≡ w.label_addr l
  at_top = ground (arith, top)

  above_top : link_words ra (w.label_addr l) s (link_top s + 8) ≡ ra
  above_top = ground (arith, top)

  restored : link_words ra (w.label_addr l) s (sub64 (s.regs 4) 8) ≡ s.regs 10
  restored = ground (arith, top)

  after_link-Linked : Linked w ra l s (after_link ra (w.label_addr l) s)
  after_link-Linked = record {
    link_register = refl;
    moved = rw new_sp top;
    emulated_address = rw new_sp above_top;
    native_address = rw new_sp at_top;
    kept = (
      refl,
      (
        refl,
        (
          refl,
          (
            omega arith,
            (refl, (refl, (refl, (refl, (refl, (restored, (refl, (refl, (refl, (refl, tt)))))))))),
          ),
        ),
      ),
    );
  }

-- Where iced refuses nothing, the code that BL and BLR put before their jump runs through: the link
-- register holds the address of the next instruction, which stands on the shadow stack with the address of the
-- label behind the jump; no other register but the scratch register has changed.
pub link-Linked :
    ⦃v : Vendor⦄ ⦃cb : Callbacks⦄ (acc : Accepting v) (i : Bad64.Instruction) (a : Assembler)
    (w : World) (s : Cpu)
    → CanLink s
    → (cs : List Call) × (t : Cpu) × (link i a
        ≡ (ok tt, record { calls = a.calls ++ cs; labels = suc a.labels }))
      × (run w cs (Mode.running s) ≡ Mode.running t)
      × Linked w (i.address + 4) (suc a.labels) s t
link-Linked acc i a w s c = (
  link_code (i.address + 4) (suc a.labels),
  after_link (i.address + 4) (w.label_addr (suc a.labels)) s,
  link-calls acc i a,
  run-link w (i.address + 4) (suc a.labels) s,
  after_link-Linked w (i.address + 4) (suc a.labels) s c,
)
