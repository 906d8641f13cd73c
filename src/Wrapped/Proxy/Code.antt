-- ===== src/Wrapped/Proxy/Code.antt =====
-- The code of a library proxy of src/wrapped/proxy.rs in parts.
use xob.Base.{ℕ, suc, ◌≡◌, ◌∙◌, refl, sym, ap, List, [], ◌∷◌, ◌++◌, append_assoc, append-nil}
use xob.Outcome.{Outcome, ok}
use xob.Vendor.{Vendor}
use xob.Vendor.Iced.{Mnemonic, Arg, Call, rax, rdx, rsp, rdi, r10, r11, r15}
use xob.Register.Context.{param_offset, shadow_sp_offset}
use xob.ExecPool.{Callbacks}
use xob.Assembler.{Assembler, asm, emit, fwd, fresh, anonymous_label, append_call}
use xob.Machine.{Accepting}
use xob.Wrapped.Proxy.{lib_proxy}

abbrev pub head : List Call
head =
    Call.asm Mnemonic.sub (Arg.reg rsp ∷ Arg.imm 16 ∷ [])
    ∷ Call.asm Mnemonic.mov (Arg.ptr rsp 0 ∷ Arg.reg r10 ∷ [])
    ∷ Call.asm Mnemonic.mov (Arg.ptr rsp 8 ∷ Arg.reg r11 ∷ [])
    ∷ []

abbrev pub tail : List Call
tail =
    Call.asm Mnemonic.mov (Arg.reg r10 ∷ Arg.ptr rsp 0 ∷ [])
    ∷ Call.asm Mnemonic.mov (Arg.reg r11 ∷ Arg.ptr rsp 8 ∷ [])
    ∷ Call.asm Mnemonic.add (Arg.reg rsp ∷ Arg.imm 16 ∷ [])
    ∷ Call.asm Mnemonic.mov (Arg.reg rdi ∷ Arg.reg rax ∷ [])
    ∷ Call.asm Mnemonic.mov (Arg.reg rdx ∷ Arg.ptr r15 shadow_sp_offset ∷ [])
    ∷ Call.asm Mnemonic.mov (Arg.reg rax ∷ Arg.ptr rdx 8 ∷ [])
    ∷ Call.asm Mnemonic.cmp (Arg.reg r11 ∷ Arg.reg rax ∷ [])
    ∷ Call.asm Mnemonic.mov (Arg.reg rax ∷ Arg.ptr rdx 0 ∷ [])
    ∷ Call.asm Mnemonic.lea (Arg.reg rdx ∷ Arg.ptr rdx 16 ∷ [])
    ∷ Call.asm Mnemonic.mov (Arg.ptr r15 shadow_sp_offset ∷ Arg.reg rdx ∷ [])
    ∷ []

abbrev pub call_by_register : ℕ → List Call
call_by_register target =
    Call.asm Mnemonic.mov (Arg.reg rax ∷ Arg.imm target ∷ [])
    ∷ Call.asm Mnemonic.call (Arg.reg rax ∷ [])
    ∷ []

-- The jump to the address in RAX, and behind it what is done where the comparison failed.
abbrev pub leave : ℕ → ℕ → List Call
leave indirect_jump l =
    Call.fwd l
    ∷ Call.asm Mnemonic.jne (Arg.label l ∷ [])
    ∷ Call.asm Mnemonic.jmp (Arg.reg rax ∷ [])
    ∷ Call.anonymous_label
    ∷ Call.asm Mnemonic.mov (Arg.ptr r15 param_offset ∷ Arg.reg r11 ∷ [])
    ∷ Call.asm Mnemonic.mov (Arg.reg rax ∷ Arg.imm indirect_jump ∷ [])
    ∷ Call.asm Mnemonic.call (Arg.reg rax ∷ [])
    ∷ []

abbrev pub proxy_code : ℕ → ℕ → ℕ → List Call
proxy_code target indirect_jump l = head ++ call_by_register target ++ tail ++ leave indirect_jump l

-- Calls appended one by one.
abbrev one_by_one : List Call → List Call → List Call
one_by_one before [] = before
one_by_one before (c ∷ cs) = one_by_one (before ++ c ∷ []) cs

one_by_one-append : (before cs : List Call) → one_by_one before cs ≡ before ++ cs
one_by_one-append before [] = sym (append-nil before)
one_by_one-append before (c ∷ cs) =
    one_by_one-append (before ++ c ∷ []) cs ∙ append_assoc before (c ∷ []) cs

module _ ⦃v : Vendor⦄ (acc : Accepting v) where
  asm-calls :
      (m : Mnemonic) (args : List Arg) (a : Assembler)
      → asm m args a ≡ (ok tt, append_call (Call.asm m args) a)
  unfolding asm emit
  asm-calls m args a = rw acc.accepts_all refl

  anonymous_label-calls :
      (a : Assembler) → anonymous_label a ≡ (ok tt, append_call Call.anonymous_label a)
  unfolding anonymous_label emit
  anonymous_label-calls a = rw acc.accepts_all refl

  fwd-calls :
      (a : Assembler)
      → fwd a ≡ (
        ok (suc a.labels),
        record { calls = a.calls ++ Call.fwd (suc a.labels) ∷ []; labels = suc a.labels },
      )
  unfolding fwd fresh
  fwd-calls a = rw acc.accepts_all refl

  lib_proxy-one_by_one :
      ⦃cb : Callbacks⦄ (target : ℕ) (a : Assembler)
      → lib_proxy target a ≡ (
        ok tt,
        record {
          calls =
              one_by_one a.calls (proxy_code target cb.indirect_jump_landing_pad (suc a.labels));
          labels = suc a.labels;
        },
      )
  unfolding lib_proxy
  lib_proxy-one_by_one target a = simp (asm-calls, fwd-calls, anonymous_label-calls)

  pub lib_proxy-calls :
      ⦃cb : Callbacks⦄ (target : ℕ) (a : Assembler)
      → lib_proxy target a ≡ (
        ok tt,
        record {
          calls = a.calls ++ proxy_code target cb.indirect_jump_landing_pad (suc a.labels);
          labels = suc a.labels;
        },
      )
  lib_proxy-calls ⦃cb⦄ target a =
      lib_proxy-one_by_one target a
      ∙ ap
          (λ (cs : List Call).
            let r : Outcome (Unit {0}) × Assembler =
              (ok tt, record { calls = cs; labels = suc a.labels }) in
            r)
          (one_by_one-append a.calls
            (proxy_code target cb.indirect_jump_landing_pad (suc a.labels)))
