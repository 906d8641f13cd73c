-- ===== src/InstrUtils/Indirect.antt =====
-- src/runner/compiler/instr_utils.rs: loads and stores of a context slot through the scratch
-- register.
use xob.Base.{ℕ, [], ◌∷◌}
use xob.Vendor.{Vendor}
use xob.Vendor.Iced.{Arg, Mnemonic, rax, eax, r15, xmm15}
use xob.Register.{RegClass}
use xob.Assembler.{Asm, asm, crash}

module _ ⦃v : Vendor⦄ where
  unfoldable pub load_indirect : RegClass → ℕ → Asm (Unit {0})
  unfolding asm
  load_indirect RegClass.gpr32 o = asm Mnemonic.mov (Arg.reg eax ∷ Arg.ptr r15 o ∷ [])
  load_indirect RegClass.gpr64 o = asm Mnemonic.mov (Arg.reg rax ∷ Arg.ptr r15 o ∷ [])
  load_indirect RegClass.fp128 o = asm Mnemonic.movaps (Arg.reg xmm15 ∷ Arg.ptr r15 o ∷ [])
  load_indirect (RegClass.simd _) o = asm Mnemonic.movaps (Arg.reg xmm15 ∷ Arg.ptr r15 o ∷ [])
  load_indirect RegClass.fp64 o = asm Mnemonic.movsd_2 (Arg.reg xmm15 ∷ Arg.ptr r15 o ∷ [])
  load_indirect RegClass.fp32 o = asm Mnemonic.movss (Arg.reg xmm15 ∷ Arg.ptr r15 o ∷ [])
  load_indirect _ o = crash

  unfoldable pub store_indirect : RegClass → ℕ → Asm (Unit {0})
  unfolding asm
  store_indirect RegClass.gpr32 o = asm Mnemonic.mov (Arg.ptr r15 o ∷ Arg.reg eax ∷ [])
  store_indirect RegClass.gpr64 o = asm Mnemonic.mov (Arg.ptr r15 o ∷ Arg.reg rax ∷ [])
  store_indirect RegClass.fp128 o = asm Mnemonic.movaps (Arg.ptr r15 o ∷ Arg.reg xmm15 ∷ [])
  store_indirect (RegClass.simd _) o = asm Mnemonic.movaps (Arg.ptr r15 o ∷ Arg.reg xmm15 ∷ [])
  store_indirect RegClass.fp64 o = asm Mnemonic.movsd_2 (Arg.ptr r15 o ∷ Arg.reg xmm15 ∷ [])
  store_indirect RegClass.fp32 o = asm Mnemonic.movss (Arg.ptr r15 o ∷ Arg.reg xmm15 ∷ [])
  store_indirect _ o = crash
