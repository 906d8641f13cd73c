-- ===== src/Callbacks/LandingPads.antt =====
-- src/runner/callbacks.rs: the naked functions that compiled code calls. `func` is the address of the
-- callback.
pub mod Resumed
use xob.Base.{ℕ, List, [], ◌∷◌, ◌++◌}
use xob.Vendor.Iced.{Mnemonic, Arg, Call, rax, rcx, rdx, rsi, rdi, rsp, r8_reg, r9, r10, r11, r15}
use xob.Cpu.{minus}

unfoldable pub landing_pad : ℕ → List Call
landing_pad func =
    Call.asm Mnemonic.mov (Arg.reg rdi ∷ Arg.reg r15 ∷ [])
    ∷ Call.asm Mnemonic.mov (Arg.reg rsi ∷ Arg.ptr rsp 0 ∷ [])
    ∷ Call.asm Mnemonic.sub (Arg.reg rsp ∷ Arg.imm 8 ∷ [])
    ∷ Call.asm Mnemonic.call (Arg.imm func ∷ [])
    ∷ []

unfoldable pub resumable_landing_pad : ℕ → List Call
resumable_landing_pad func =
    Call.asm Mnemonic.mov (Arg.ptr rsp (minus 8) ∷ Arg.reg rcx ∷ [])
    ∷ Call.asm Mnemonic.mov (Arg.ptr rsp (minus 16) ∷ Arg.reg rdx ∷ [])
    ∷ Call.asm Mnemonic.mov (Arg.ptr rsp (minus 24) ∷ Arg.reg rsi ∷ [])
    ∷ Call.asm Mnemonic.mov (Arg.ptr rsp (minus 32) ∷ Arg.reg rdi ∷ [])
    ∷ Call.asm Mnemonic.mov (Arg.ptr rsp (minus 40) ∷ Arg.reg r8_reg ∷ [])
    ∷ Call.asm Mnemonic.mov (Arg.ptr rsp (minus 48) ∷ Arg.reg r9 ∷ [])
    ∷ Call.asm Mnemonic.mov (Arg.ptr rsp (minus 56) ∷ Arg.reg r10 ∷ [])
    ∷ Call.asm Mnemonic.mov (Arg.ptr rsp (minus 64) ∷ Arg.reg r11 ∷ [])
    ∷ Call.asm Mnemonic.mov (Arg.reg rdi ∷ Arg.reg r15 ∷ [])
    ∷ Call.asm Mnemonic.mov (Arg.reg rsi ∷ Arg.ptr rsp 0 ∷ [])
    ∷ Call.asm Mnemonic.sub (Arg.reg rsp ∷ Arg.imm 72 ∷ [])
    ∷ Call.asm Mnemonic.call (Arg.imm func ∷ [])
    ∷ Call.asm Mnemonic.add (Arg.reg rsp ∷ Arg.imm 80 ∷ [])
    ∷ Call.asm Mnemonic.mov (Arg.reg rcx ∷ Arg.ptr rsp (minus 16) ∷ [])
    ∷ Call.asm Mnemonic.mov (Arg.reg rdx ∷ Arg.ptr rsp (minus 24) ∷ [])
    ∷ Call.asm Mnemonic.mov (Arg.reg rsi ∷ Arg.ptr rsp (minus 32) ∷ [])
    ∷ Call.asm Mnemonic.mov (Arg.reg rdi ∷ Arg.ptr rsp (minus 40) ∷ [])
    ∷ Call.asm Mnemonic.mov (Arg.reg r8_reg ∷ Arg.ptr rsp (minus 48) ∷ [])
    ∷ Call.asm Mnemonic.mov (Arg.reg r9 ∷ Arg.ptr rsp (minus 56) ∷ [])
    ∷ Call.asm Mnemonic.mov (Arg.reg r10 ∷ Arg.ptr rsp (minus 64) ∷ [])
    ∷ Call.asm Mnemonic.mov (Arg.reg r11 ∷ Arg.ptr rsp (minus 72) ∷ [])
    ∷ Call.asm Mnemonic.jmp (Arg.reg rax ∷ [])
    ∷ []
