-- ===== src/Callbacks/LandingPads/Resumed.antt =====
-- What a resumable landing pad does to the emulated program.
use xob.Base.{ℕ, ◌+◌, ◌≤◌, ◌<◌, ◌^◌, ◌≡◌, ◌∙◌, refl, ap, arith, List, [], ◌∷◌, some, ◌==◌}
use xob.Vendor.Iced.{Mnemonic, Arg, Call, rax, rcx, rdx, rsi, rdi, rsp, r8_reg, r9, r10, r11, r15}
use xob.Cpu.{
  Cpu, World, Next, Mode, minus, run, run-append, tick, exec, exec_asm, put, add64, sub64,
}
use xob.Cpu.Abi.{SameRegs, Native, emulated}
use xob.Callbacks.LandingPads.{resumable_landing_pad}

-- The registers that the callback may change go below the stack pointer.
abbrev saves : List Call
saves =
    Call.asm Mnemonic.mov (Arg.ptr rsp (minus 8) ∷ Arg.reg rcx ∷ [])
    ∷ Call.asm Mnemonic.mov (Arg.ptr rsp (minus 16) ∷ Arg.reg rdx ∷ [])
    ∷ Call.asm Mnemonic.mov (Arg.ptr rsp (minus 24) ∷ Arg.reg rsi ∷ [])
    ∷ Call.asm Mnemonic.mov (Arg.ptr rsp (minus 32) ∷ Arg.reg rdi ∷ [])
    ∷ Call.asm Mnemonic.mov (Arg.ptr rsp (minus 40) ∷ Arg.reg r8_reg ∷ [])
    ∷ Call.asm Mnemonic.mov (Arg.ptr rsp (minus 48) ∷ Arg.reg r9 ∷ [])
    ∷ Call.asm Mnemonic.mov (Arg.ptr rsp (minus 56) ∷ Arg.reg r10 ∷ [])
    ∷ Call.asm Mnemonic.mov (Arg.ptr rsp (minus 64) ∷ Arg.reg r11 ∷ [])
    ∷ Call.asm Mnemonic.mov (Arg.reg rdi ∷ Arg.reg r15 ∷ [])
    ∷ Call.asm Mnemonic.mov (Arg.reg rsi ∷ Arg.ptr rsp 0 ∷ [])
    ∷ Call.asm Mnemonic.sub (Arg.reg rsp ∷ Arg.imm 72 ∷ [])
    ∷ []

abbrev restores : List Call
restores =
    Call.asm Mnemonic.add (Arg.reg rsp ∷ Arg.imm 80 ∷ [])
    ∷ Call.asm Mnemonic.mov (Arg.reg rcx ∷ Arg.ptr rsp (minus 16) ∷ [])
    ∷ Call.asm Mnemonic.mov (Arg.reg rdx ∷ Arg.ptr rsp (minus 24) ∷ [])
    ∷ Call.asm Mnemonic.mov (Arg.reg rsi ∷ Arg.ptr rsp (minus 32) ∷ [])
    ∷ Call.asm Mnemonic.mov (Arg.reg rdi ∷ Arg.ptr rsp (minus 40) ∷ [])
    ∷ Call.asm Mnemonic.mov (Arg.reg r8_reg ∷ Arg.ptr rsp (minus 48) ∷ [])
    ∷ Call.asm Mnemonic.mov (Arg.reg r9 ∷ Arg.ptr rsp (minus 56) ∷ [])
    ∷ Call.asm Mnemonic.mov (Arg.reg r10 ∷ Arg.ptr rsp (minus 64) ∷ [])
    ∷ Call.asm Mnemonic.mov (Arg.reg r11 ∷ Arg.ptr rsp (minus 72) ∷ [])
    ∷ Call.asm Mnemonic.jmp (Arg.reg rax ∷ [])
    ∷ []

-- Memory once the registers are saved.
abbrev saved_words : Cpu → ℕ → ℕ
saved_words s =
    put
      (put
        (put
          (put
            (put
              (put
                (put (put (s.words) (add64 (s.regs 4) (minus 8)) (s.regs 1))
                  (add64 (s.regs 4) (minus 16)) (s.regs 2))
                (add64 (s.regs 4) (minus 24)) (s.regs 6))
              (add64 (s.regs 4) (minus 32)) (s.regs 7))
            (add64 (s.regs 4) (minus 40)) (s.regs 8))
          (add64 (s.regs 4) (minus 48)) (s.regs 9))
        (add64 (s.regs 4) (minus 56)) (s.regs 10))
      (add64 (s.regs 4) (minus 64)) (s.regs 11)

-- The state in which the callback is entered.
abbrev at_call : Cpu → Cpu
at_call s = record {
  regs =
      put (put (put s.regs 7 (s.regs 15)) 6 (saved_words s (add64 (s.regs 4) 0))) 4
        (sub64 (s.regs 4) 72);
  words = saved_words s;
  zf = sub64 (s.regs 4) 72 == 0;
}

-- The state in which the pad leaves, from that in which the callback returns.
abbrev at_exit : Cpu → Cpu
at_exit r = record {
  regs =
      put
        (put
          (put
            (put
              (put
                (put
                  (put
                    (put (put r.regs 4 (add64 (r.regs 4) 80)) 1
                      (r.words (add64 (add64 (r.regs 4) 80) (minus 16))))
                    2 (r.words (add64 (add64 (r.regs 4) 80) (minus 24))))
                  6 (r.words (add64 (add64 (r.regs 4) 80) (minus 32))))
                7 (r.words (add64 (add64 (r.regs 4) 80) (minus 40))))
              8 (r.words (add64 (add64 (r.regs 4) 80) (minus 48))))
            9 (r.words (add64 (add64 (r.regs 4) 80) (minus 56))))
          10 (r.words (add64 (add64 (r.regs 4) 80) (minus 64))))
        11 (r.words (add64 (add64 (r.regs 4) 80) (minus 72)));
  words = r.words;
  zf = add64 (r.regs 4) 80 == 0;
}

run-saves : (w : World) (s : Cpu) → run w saves (Mode.running s) ≡ Mode.running (at_call s)
unfolding run tick exec exec_asm
run-saves w s = refl

run-restores :
    (w : World) (r : Cpu)
    → run w restores (Mode.running r) ≡ Mode.left (Next.jumped (r.regs 0) (at_exit r))
unfolding run tick exec exec_asm
run-restores w r = refl

run-call :
    (w : World) (func : ℕ) (f : Cpu → Cpu) (s : Cpu)
    → w.native func ≡ some f
    → run w (Call.asm Mnemonic.call (Arg.imm func ∷ []) ∷ restores) (Mode.running s)
      ≡ Mode.left (Next.jumped ((f s).regs 0) (at_exit (f s)))
unfolding run tick exec exec_asm
run-call w func f s there = rw there refl

run-pad :
    (w : World) (func : ℕ) (f : Cpu → Cpu) (s : Cpu)
    → w.native func ≡ some f
    → run w (resumable_landing_pad func) (Mode.running s)
      ≡ Mode.left (Next.jumped ((f (at_call s)).regs 0) (at_exit (f (at_call s))))
unfolding resumable_landing_pad
run-pad w func f s there =
    run-append w saves (Call.asm Mnemonic.call (Arg.imm func ∷ []) ∷ restores) (Mode.running s)
    ∙ ap (run w (Call.asm Mnemonic.call (Arg.imm func ∷ []) ∷ restores)) (run-saves w s)
    ∙ run-call w func f (at_call s) there

-- What a call of the pad in the state `s` comes to: the callback is entered in a state `e` with the
-- context and the return address as its arguments and a stack pointer 72 below, and the pad jumps to what
-- it returns in a state `t` with the emulated registers of `s` and the return address popped.
pub record Resumed (f : Cpu → Cpu) (s e t : Cpu) : Type 0 where
  pub context : e.regs 7 ≡ s.regs 15
  pub return_address : e.regs 6 ≡ s.words (s.regs 4)
  pub stack : e.regs 4 + 72 ≡ s.regs 4
  pub kept : SameRegs emulated s t
  pub popped : t.regs 4 ≡ s.regs 4 + 8

module _ (f : Cpu → Cpu) (native : Native 80 f) (s : Cpu) (low : 72 ≤ s.regs 4)
    (high : s.regs 4 + 8 < 2 ^ 64) where
  reload :
      (n k v : ℕ)
      → n + k ≡ 80
      → 8 ≤ k
      → k < 80
      → saved_words s (sub64 (s.regs 4) 72 + k) ≡ v
      → (f (at_call s)).words (add64 (add64 ((f (at_call s)).regs 4) 80) (minus n)) ≡ v
  reload n k v e lo lt held =
      let place : add64 (add64 ((f (at_call s)).regs 4) 80) (minus n) ≡ sub64 (s.regs 4) 72 + k =
        rw (native.stack (at_call s)) (omega arith) in
      rw place (native.frame (at_call s) k lt ∙ held)

  at_exit-emulated : SameRegs emulated s (at_exit (f (at_call s)))
  at_exit-emulated =
      let (rbx, (rbp, (at12, (at13, (at14, (at15, _)))))) = native.saved (at_call s) in
      (
        reload 16 64 (s.regs 1) (omega arith) (omega arith) (omega arith) (ground arith),
        (
          reload 24 56 (s.regs 2) (omega arith) (omega arith) (omega arith) (ground arith),
          (
            rbx,
            (
              rbp,
              (
                reload 32 48 (s.regs 6) (omega arith) (omega arith) (omega arith) (ground arith),
                (
                  reload 40 40 (s.regs 7) (omega arith) (omega arith) (omega arith) (ground arith),
                  (
                    reload 48 32 (s.regs 8) (omega arith) (omega arith) (omega arith)
                        (ground arith),
                    (
                      reload 56 24 (s.regs 9) (omega arith) (omega arith) (omega arith)
                          (ground arith),
                      (
                        reload 64 16 (s.regs 10) (omega arith) (omega arith) (omega arith)
                            (ground arith),
                        (
                          reload 72 8 (s.regs 11) (omega arith) (omega arith) (omega arith)
                              (ground arith),
                          (at12, (at13, (at14, (at15, tt)))),
                        ),
                      ),
                    ),
                  ),
                ),
              ),
            ),
          ),
        ),
      )

  at_exit-Resumed : Resumed f s (at_call s) (at_exit (f (at_call s)))
  at_exit-Resumed = record {
    context = refl;
    return_address = ground arith;
    stack = omega arith;
    kept = at_exit-emulated;
    popped = rw (native.stack (at_call s)) (omega arith);
  }

-- A landing pad whose callback is a native function is transparent: with at least 72 bytes of stack, it enters the
-- callback with the context and the return address, and goes on at the address that the callback
-- returns, with every general register but the scratch register as it was and the return address
-- popped from the stack.
pub resumable_landing_pad-Resumed :
    (w : World) (func : ℕ) (f : Cpu → Cpu) (s : Cpu)
    → w.native func ≡ some f
    → Native 80 f
    → 72 ≤ s.regs 4
    → s.regs 4 + 8 < 2 ^ 64
    → (e : Cpu) × (t : Cpu) × Resumed f s e t
      × (run w (resumable_landing_pad func) (Mode.running s)
          ≡ Mode.left (Next.jumped ((f e).regs 0) t))
resumable_landing_pad-Resumed w func f s there native low high = (
  at_call s,
  at_exit (f (at_call s)),
  at_exit-Resumed f native s low high,
  run-pad w func f s there,
)
