-- ===== src/Wrapped/Proxy/Runs.antt =====
-- What the parts of the code of a library proxy, and of a landing pad of src/wrapped.rs, do.
use xob.Base.{ℕ, ◌≡◌, ◌∙◌, refl, ap, true, List, [], ◌∷◌, ◌++◌, some, ◌==◌}
use xob.Vendor.Iced.{Mnemonic, Arg, Call, rax, r11, r15}
use xob.Register.Context.{param_offset, shadow_sp_offset}
use xob.Wrapped.Proxy.{wrapped_landing_pad}
use xob.Cpu.{Cpu, World, Next, Mode, run, run-append, tick, exec, exec_asm, add64, sub64, put}
use xob.Wrapped.Proxy.Code.{head, tail, call_by_register, leave, proxy_code}

abbrev pub saved : Cpu → ℕ → ℕ
saved s =
    put (put s.words (add64 (sub64 (s.regs 4) 16) 0) (s.regs 10)) (add64 (sub64 (s.regs 4) 16) 8)
      (s.regs 11)

-- The state at the call.
abbrev pub at_call : Cpu → Cpu
at_call s = record {
  regs = put s.regs 4 (sub64 (s.regs 4) 16);
  words = saved s;
  zf = sub64 (s.regs 4) 16 == 0;
}

abbrev pub with_rax : ℕ → Cpu → Cpu
with_rax n s = record s { regs = put s.regs 0 n }

abbrev pub link_reg : Cpu → ℕ
link_reg r = r.words (add64 (r.regs 4) 8)

abbrev pub sp : Cpu → ℕ
sp r = r.words (add64 (r.regs 15) shadow_sp_offset)

-- The state at the conditional jump, from that in which the native function returns.
abbrev pub at_jump : Cpu → Cpu
at_jump r = record {
  regs =
      put
        (put
          (put
            (put
              (put
                (put (put (put r.regs 10 (r.words (add64 (r.regs 4) 0))) 11 (link_reg r)) 4
                  (add64 (r.regs 4) 16))
                7 (r.regs 0))
              2 (sp r))
            0 (r.words (add64 (sp r) 8)))
          0 (r.words (add64 (sp r) 0)))
        2 (add64 (sp r) 16);
  words = put r.words (add64 (r.regs 15) shadow_sp_offset) (add64 (sp r) 16);
  zf = link_reg r == r.words (add64 (sp r) 8);
}

run-head : (w : World) (s : Cpu) → run w head (Mode.running s) ≡ Mode.running (at_call s)
unfolding run tick exec exec_asm
run-head w s = refl

run-tail : (w : World) (r : Cpu) → run w tail (Mode.running r) ≡ Mode.running (at_jump r)
unfolding run tick exec exec_asm
run-tail w r = refl

run-call :
    (w : World) (target : ℕ) (f : Cpu → Cpu) (s : Cpu)
    → w.native target ≡ some f
    → run w (call_by_register target) (Mode.running s) ≡ Mode.running (f (with_rax target s))
unfolding run tick exec exec_asm
run-call w target f s there = rw there refl

run-leave :
    (w : World) (indirect_jump l : ℕ) (s : Cpu)
    → s.zf ≡ true
    → run w (leave indirect_jump l) (Mode.running s) ≡ Mode.left (Next.jumped (s.regs 0) s)
unfolding run tick exec exec_asm
run-leave w indirect_jump l s h = rw h refl

-- `jne`, `jmp rax` and what follows, of the landing pad.
abbrev leave_pad : ℕ → List Call
leave_pad indirect_jump =
    Call.asm Mnemonic.jne (Arg.label 2 ∷ [])
    ∷ Call.asm Mnemonic.jmp (Arg.reg rax ∷ [])
    ∷ Call.anonymous_label
    ∷ Call.asm Mnemonic.mov (Arg.ptr r15 param_offset ∷ Arg.reg r11 ∷ [])
    ∷ Call.asm Mnemonic.call (Arg.imm indirect_jump ∷ [])
    ∷ []

run-leave_pad :
    (w : World) (indirect_jump : ℕ) (s : Cpu)
    → s.zf ≡ true
    → run w (leave_pad indirect_jump) (Mode.running s) ≡ Mode.left (Next.jumped (s.regs 0) s)
unfolding run tick exec exec_asm
run-leave_pad w indirect_jump s h = rw h refl

run-call_imm :
    (w : World) (target : ℕ) (f : Cpu → Cpu) (s : Cpu)
    → w.native target ≡ some f
    → run w (Call.asm Mnemonic.call (Arg.imm target ∷ []) ∷ []) (Mode.running s)
      ≡ Mode.running (f s)
unfolding run tick exec exec_asm
run-call_imm w target f s there = rw there refl

-- The parts run one after the other.
run-parts :
    (w : World) (call out : List Call) (f : Cpu → Cpu) (s e : Cpu)
    → run w call (Mode.running (at_call s)) ≡ Mode.running (f e)
    → run w out (Mode.running (at_jump (f e)))
      ≡ Mode.left (Next.jumped ((at_jump (f e)).regs 0) (at_jump (f e)))
    → run w (head ++ (call ++ (tail ++ out))) (Mode.running s)
      ≡ Mode.left (Next.jumped ((at_jump (f e)).regs 0) (at_jump (f e)))
run-parts w call out f s e called leaves =
    run-append w head (call ++ (tail ++ out)) (Mode.running s)
    ∙ ap (run w (call ++ (tail ++ out))) (run-head w s)
    ∙ run-append w call (tail ++ out) (Mode.running (at_call s))
    ∙ ap (run w (tail ++ out)) called
    ∙ run-append w tail out (Mode.running (f e))
    ∙ ap (run w out) (run-tail w (f e))
    ∙ leaves

module _ (w : World) (target : ℕ) (f : Cpu → Cpu) (there : w.native target ≡ some f) (s : Cpu) where
  pub run-proxy :
      (indirect_jump l : ℕ)
      → (at_jump (f (with_rax target (at_call s)))).zf ≡ true
      → run w (proxy_code target indirect_jump l) (Mode.running s)
        ≡ Mode.left (
            Next.jumped
              ((at_jump (f (with_rax target (at_call s)))).regs 0)
              (at_jump (f (with_rax target (at_call s)))))
  run-proxy indirect_jump l hit =
      run-parts w (call_by_register target) (leave indirect_jump l) f s
        (with_rax target (at_call s)) (run-call w target f (at_call s) there)
        (run-leave w indirect_jump l _ hit)

  pub run-pad :
      (indirect_jump : ℕ)
      → (at_jump (f (at_call s))).zf ≡ true
      → run w (wrapped_landing_pad target indirect_jump) (Mode.running s)
        ≡ Mode.left (Next.jumped ((at_jump (f (at_call s))).regs 0) (at_jump (f (at_call s))))
  unfolding wrapped_landing_pad
  run-pad indirect_jump hit =
      run-parts w (Call.asm Mnemonic.call (Arg.imm target ∷ []) ∷ []) (leave_pad indirect_jump) f s
        (at_call s) (run-call_imm w target f (at_call s) there)
        (run-leave_pad w indirect_jump _ hit)
