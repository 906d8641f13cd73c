-- ===== src/Wrapped/Proxy.antt =====
-- src/wrapped/proxy.rs: emulated code that calls a native function.
pub mod Code
pub mod Runs
pub mod Returns
use xob.Base.{ℕ, List, [], ◌∷◌}
use xob.Vendor.{Vendor}
use xob.Vendor.Iced.{Mnemonic, Arg, Call, rax, rdx, rsp, rdi, r10, r11, r15}
use xob.Register.Context.{param_offset, shadow_sp_offset}
use xob.ExecPool.{Callbacks}
use xob.Assembler.{Asm, asm, fwd, anonymous_label, ◌>>=◌, ◌>>◌}

module _ ⦃v : Vendor⦄ ⦃cb : Callbacks⦄ where
  -- The code that calls a native function and returns by the shadow stack.
  unfoldable pub lib_proxy : ℕ → Asm (Unit {0})
  lib_proxy target = do
    asm Mnemonic.sub (Arg.reg rsp ∷ Arg.imm 16 ∷ [])
    asm Mnemonic.mov (Arg.ptr rsp 0 ∷ Arg.reg r10 ∷ [])
    asm Mnemonic.mov (Arg.ptr rsp 8 ∷ Arg.reg r11 ∷ [])
    asm Mnemonic.mov (Arg.reg rax ∷ Arg.imm target ∷ [])
    asm Mnemonic.call (Arg.reg rax ∷ [])
    asm Mnemonic.mov (Arg.reg r10 ∷ Arg.ptr rsp 0 ∷ [])
    asm Mnemonic.mov (Arg.reg r11 ∷ Arg.ptr rsp 8 ∷ [])
    asm Mnemonic.add (Arg.reg rsp ∷ Arg.imm 16 ∷ [])
    asm Mnemonic.mov (Arg.reg rdi ∷ Arg.reg rax ∷ [])
    asm Mnemonic.mov (Arg.reg rdx ∷ Arg.ptr r15 shadow_sp_offset ∷ [])
    asm Mnemonic.mov (Arg.reg rax ∷ Arg.ptr rdx 8 ∷ [])
    asm Mnemonic.cmp (Arg.reg r11 ∷ Arg.reg rax ∷ [])
    asm Mnemonic.mov (Arg.reg rax ∷ Arg.ptr rdx 0 ∷ [])
    asm Mnemonic.lea (Arg.reg rdx ∷ Arg.ptr rdx 16 ∷ [])
    asm Mnemonic.mov (Arg.ptr r15 shadow_sp_offset ∷ Arg.reg rdx ∷ [])
    shadow_stack_miss ← fwd
    asm Mnemonic.jne (Arg.label shadow_stack_miss ∷ [])
    asm Mnemonic.jmp (Arg.reg rax ∷ [])
    anonymous_label
    asm Mnemonic.mov (Arg.ptr r15 param_offset ∷ Arg.reg r11 ∷ [])
    asm Mnemonic.mov (Arg.reg rax ∷ Arg.imm cb.indirect_jump_landing_pad ∷ [])
    asm Mnemonic.call (Arg.reg rax ∷ [])

-- src/wrapped.rs: the naked function around an overriding function at `target`. The numbered label
-- of the assembly is the anonymous label here.
unfoldable pub wrapped_landing_pad : ℕ → ℕ → List Call
wrapped_landing_pad target indirect_jump =
    Call.asm Mnemonic.sub (Arg.reg rsp ∷ Arg.imm 16 ∷ [])
    ∷ Call.asm Mnemonic.mov (Arg.ptr rsp 0 ∷ Arg.reg r10 ∷ [])
    ∷ Call.asm Mnemonic.mov (Arg.ptr rsp 8 ∷ Arg.reg r11 ∷ [])
    ∷ Call.asm Mnemonic.call (Arg.imm target ∷ [])
    ∷ Call.asm Mnemonic.mov (Arg.reg r10 ∷ Arg.ptr rsp 0 ∷ [])
    ∷ Call.asm Mnemonic.mov (Arg.reg r11 ∷ Arg.ptr rsp 8 ∷ [])
    ∷ Call.asm Mnemonic.add (Arg.reg rsp ∷ Arg.imm 16 ∷ [])
    ∷ Call.asm Mnemonic.mov (Arg.reg rdi ∷ Arg.reg rax ∷ [])
    ∷ Call.asm Mnemonic.mov (Arg.reg rdx ∷ Arg.ptr r15 shadow_sp_offset ∷ [])
    ∷ Call.asm Mnemonic.mov (Arg.reg rax ∷ Arg.ptr rdx 8 ∷ [])
    ∷ Call.asm Mnemonic.cmp (Arg.reg r11 ∷ Arg.reg rax ∷ [])
    ∷ Call.asm Mnemonic.mov (Arg.reg rax ∷ Arg.ptr rdx 0 ∷ [])
    ∷ Call.asm Mnemonic.lea (Arg.reg rdx ∷ Arg.ptr rdx 16 ∷ [])
    ∷ Call.asm Mnemonic.mov (Arg.ptr r15 shadow_sp_offset ∷ Arg.reg rdx ∷ [])
    ∷ Call.asm Mnemonic.jne (Arg.label 2 ∷ [])
    ∷ Call.asm Mnemonic.jmp (Arg.reg rax ∷ [])
    ∷ Call.anonymous_label
    ∷ Call.asm Mnemonic.mov (Arg.ptr r15 param_offset ∷ Arg.reg r11 ∷ [])
    ∷ Call.asm Mnemonic.call (Arg.imm indirect_jump ∷ [])
    ∷ []
