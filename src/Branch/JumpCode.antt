-- ===== src/Branch/JumpCode.antt =====
-- The code that `write_jump` of src/runner/compiler/branch.rs assembles.
use xob.Base.{ℕ, [], ◌∷◌}
use xob.Vendor.{Vendor}
use xob.Vendor.Iced.{Mnemonic, Arg, rax}
use xob.Assembler.{Asm, asm, ◌>>◌}

unfoldable pub jump_code : ⦃v : Vendor⦄ → ℕ → Asm (Unit {0})
jump_code dest = do
  asm Mnemonic.mov (Arg.reg rax ∷ Arg.imm dest ∷ [])
  asm Mnemonic.jmp (Arg.reg rax ∷ [])
