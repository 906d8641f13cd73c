-- ===== src/Wrapped/Proxy/Returns.antt =====
-- What the code of a library proxy, and a landing pad of src/wrapped.rs, do: call the native
-- function, and return by the shadow stack.
use xob.Base.{
  ℕ, suc, ◌+◌, ◌≤◌, ◌<◌, ◌^◌, ◌≡◌, ◌≢◌, ◌∙◌, refl, ap, arith, true, List, [], ◌∷◌, ◌++◌, some,
}
use xob.Outcome.{ok}
use xob.Vendor.{Vendor}
use xob.Vendor.Iced.{Call}
use xob.ExecPool.{Callbacks}
use xob.Assembler.{Assembler}
use xob.Machine.{Accepting}
use xob.Branch.Returns.{context_slot, shadow_sp}
use xob.Wrapped.Proxy.{lib_proxy, wrapped_landing_pad}
use xob.Wrapped.Proxy.Code.{proxy_code, lib_proxy-calls}
use xob.Wrapped.Proxy.Runs.{saved, at_call, with_rax, link_reg, sp, at_jump, run-proxy, run-pad}
use xob.Cpu.{Cpu, World, Next, Mode, run, add64, sub64}
use xob.Cpu.Abi.{SameRegs, Native, emulated}

-- A native function does not write to the context's shadow stack pointer and the top of the shadow
-- stack.
pub record SparesShadow (f : Cpu → Cpu) : Type 0 where
  pub context : (t : Cpu) → (f t).words (context_slot t) ≡ t.words (context_slot t)
  pub top : (t : Cpu) → (f t).words (shadow_sp t) ≡ t.words (shadow_sp t)
  pub second : (t : Cpu) → (f t).words (shadow_sp t + 8) ≡ t.words (shadow_sp t + 8)

-- There is room on the stack, and its two words below the stack pointer are neither the context's
-- shadow stack pointer nor the top of the shadow stack.
pub record CanCall (s : Cpu) : Type 0 where
  pub stack : (16 ≤ s.regs 4) × (s.regs 4 < 2 ^ 64)
  pub context : s.regs 15 + 432 ≤ 2 ^ 64
  pub shadow : shadow_sp s + 16 < 2 ^ 64
  pub stack_context : (s.regs 4 ≢ context_slot s + 8) × (s.regs 4 ≢ context_slot s + 16)
  pub stack_shadow :
      (s.regs 4 ≢ shadow_sp s + 8) × (s.regs 4 ≢ shadow_sp s + 16) × (s.regs 4 ≢ shadow_sp s + 24)

-- RBX, RSP, RBP and R10 to R15: what a native function would not keep of them is restored.
abbrev pub restored_regs : List ℕ
restored_regs = 3 ∷ 4 ∷ 5 ∷ 10 ∷ 11 ∷ 12 ∷ 13 ∷ 14 ∷ 15 ∷ []

-- `e` is the state of the call, `r` that in which the code leaves.
pub record Returned (f : Cpu → Cpu) (s e r : Cpu) : Type 0 where
  pub arguments : SameRegs emulated s e
  pub result : r.regs 7 ≡ (f e).regs 0
  pub restored : SameRegs restored_regs s r
  pub popped : shadow_sp r ≡ shadow_sp s + 16

module _ (f : Cpu → Cpu) (native : Native 16 f) (spares : SparesShadow f) (s e : Cpu)
    (c : CanCall s) (rsp : e.regs 4 ≡ sub64 (s.regs 4) 16) (words : e.words ≡ saved s)
    (args : SameRegs emulated s e) where
  at_r15 : e.regs 15 ≡ s.regs 15
  at_r15 = ground (arith, args)

  e-sp : shadow_sp e ≡ shadow_sp s
  e-sp = rw (words, at_r15) (ground arith)

  kept15 : (f e).regs 15 ≡ s.regs 15
  kept15 = let kept = native.saved e in ground (arith, kept, at_r15)

  kept4 : (f e).regs 4 ≡ sub64 (s.regs 4) 16
  kept4 = native.stack e ∙ rsp

  f-sp : sp (f e) ≡ shadow_sp s
  f-sp =
      ap (f e).words (let k = kept15 in let k' = at_r15 in let b = c.context in omega arith)
      ∙ spares.context e
      ∙ e-sp

  f-top : (f e).words (add64 (shadow_sp s) 0) ≡ s.words (shadow_sp s)
  f-top =
      ap (f e).words (let k = e-sp in let b = c.shadow in omega arith)
      ∙ spares.top e
      ∙ rw (e-sp, words) (ground arith)

  f-second : (f e).words (add64 (shadow_sp s) 8) ≡ s.words (shadow_sp s + 8)
  f-second =
      ap (f e).words (let k = e-sp in let b = c.shadow in omega arith)
      ∙ spares.second e
      ∙ rw (e-sp, words) (ground arith)

  f-link : link_reg (f e) ≡ s.regs 11
  f-link =
      ap (f e).words (let k = native.stack e in let k' = rsp in let b = c.stack in omega arith)
      ∙ native.frame e 8 (omega arith)
      ∙ rw (words, rsp) (ground arith)

  f-r10 : (f e).words (add64 ((f e).regs 4) 0) ≡ s.regs 10
  f-r10 =
      ap (f e).words (let k = native.stack e in let k' = rsp in let b = c.stack in omega arith)
      ∙ native.frame e 0 (omega arith)
      ∙ rw (words, rsp) (ground arith)

  -- The comparison finds the link register on top of the shadow stack, and the jump goes to the
  -- native address there.
  found : s.regs 11 ≡ s.words (shadow_sp s + 8) → (at_jump (f e)).zf ≡ true
  found h = rw (f-sp, f-second, f-link) (ground arith)

  target : (at_jump (f e)).regs 0 ≡ s.words (shadow_sp s)
  target = rw f-sp f-top

  popped : shadow_sp (at_jump (f e)) ≡ shadow_sp s + 16
  popped = let k = kept15 in let q = f-sp in ground arith

  restored : SameRegs restored_regs s (at_jump (f e))
  restored =
      let (rbx, (rbp, (at12, (at13, (at14, (at15, _)))))) = native.saved e in
      let k = kept4 in
      (
        ground (arith, args, rbx),
        (
          omega arith,
          (
            ground (arith, args, rbp),
            (
              f-r10,
              (
                f-link,
                (
                  ground (arith, args, at12),
                  (
                    ground (arith, args, at13),
                    (ground (arith, args, at14), (ground (arith, args, at15), tt)),
                  ),
                ),
              ),
            ),
          ),
        ),
      )

  at_jump-Returned : Returned f s e (at_jump (f e))
  at_jump-Returned = record {
    arguments = args;
    result = refl;
    restored = restored;
    popped = popped;
  }

-- A change of RAX and RSP leaves the registers of the emulated program.
arguments-same : (s : Cpu) → SameRegs emulated s (at_call s)
arguments-same s = (
  refl,
  (
    refl,
    (
      refl,
      (refl, (refl, (refl, (refl, (refl, (refl, (refl, (refl, (refl, (refl, (refl, tt))))))))))),
    ),
  ),
)

-- Where iced refuses nothing: where a native function is called by way of a proxy, by a call that has
-- put the link register on the shadow stack, the code of the proxy enters the function with every general register but the
-- scratch register and the stack pointer as it was, and jumps to the native return address with what the function
-- returns in RDI, which is X0, the callee-saved registers and R10 and R11, which are X23 and X30, as
-- before, and the pair popped from the shadow stack.
pub lib_proxy-Returned :
    ⦃v : Vendor⦄ ⦃cb : Callbacks⦄ (acc : Accepting v) (target : ℕ) (a : Assembler) (w : World)
    (f : Cpu → Cpu) (s : Cpu)
    → w.native target ≡ some f
    → Native 16 f
    → SparesShadow f
    → CanCall s
    → s.regs 11 ≡ s.words (shadow_sp s + 8)
    → (cs : List Call) × (e : Cpu) × (r : Cpu) × (lib_proxy target a
        ≡ (ok tt, record { calls = a.calls ++ cs; labels = suc a.labels }))
      × (run w cs (Mode.running s) ≡ Mode.left (Next.jumped (s.words (shadow_sp s)) r))
      × Returned f s e r
lib_proxy-Returned ⦃cb = cb⦄ acc address a w f s there native spares c link =
    let e = with_rax address (at_call s) in
    let args = arguments-same s in
    let r = at_jump (f e) in
    (
      proxy_code address cb.indirect_jump_landing_pad (suc a.labels),
      e,
      r,
      lib_proxy-calls acc address a,
      run-proxy w address f there s cb.indirect_jump_landing_pad (suc a.labels)
            (found f native spares s e c refl refl args link)
          ∙ ap (λ (n : ℕ). Mode.left (Next.jumped n r))
              (target f native spares s e c refl refl args),
      at_jump-Returned f native spares s e c refl refl args,
    )

-- A landing pad of src/wrapped.rs does the same around an overriding function.
wrapped_landing_pad-Returned :
    (target indirect_jump : ℕ) (w : World) (f : Cpu → Cpu) (s : Cpu)
    → w.native target ≡ some f
    → Native 16 f
    → SparesShadow f
    → CanCall s
    → s.regs 11 ≡ s.words (shadow_sp s + 8)
    → (e : Cpu) × (r : Cpu) × (run w (wrapped_landing_pad target indirect_jump) (Mode.running s)
        ≡ Mode.left (Next.jumped (s.words (shadow_sp s)) r))
      × Returned f s e r
wrapped_landing_pad-Returned address indirect_jump w f s there native spares c link =
    let e = at_call s in
    let args = arguments-same s in
    let r = at_jump (f e) in
    (
      e,
      r,
      run-pad w address f there s indirect_jump (found f native spares s e c refl refl args link)
          ∙ ap (λ (n : ℕ). Mode.left (Next.jumped n r))
              (target f native spares s e c refl refl args),
      at_jump-Returned f native spares s e c refl refl args,
    )
