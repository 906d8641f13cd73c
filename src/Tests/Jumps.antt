-- ===== src/Tests/Jumps.antt =====
-- A branch from the chunk at 1024 to the second instruction of the chunk at 512, and a new range.
use xob.Base.{◌≡◌, inl, refl, arith, [], ◌∷◌}
use xob.Outcome.{ok}
use xob.Vendor.Iced.{Call, Mnemonic, Arg, rax}
use xob.Branch.{jump_to}
use xob.Compiler.Labels.{no_calls}
use xob.Machine.{Emits}
use xob.Runner.{get_exec}
use xob.Runner.Jumps.{jump_to-get_exec}
use xob.Tests.Setup.{vendor, callbacks, platform, accepting}
use xob.Tests.Chunks.{pool, chunks, nothing, compiled, at_516}

jump_to-get_exec_example :
    Emits (jump_to ⦃v = vendor⦄ ⦃cb = callbacks⦄ chunks 1024 516) no_calls (
      Call.asm Mnemonic.mov (Arg.reg rax ∷ Arg.imm 9002 ∷ [])
      ∷ Call.asm Mnemonic.jmp (Arg.reg rax ∷ [])
      ∷ [])
    × (get_exec ⦃v = vendor⦄ ⦃cb = callbacks⦄ ⦃p = platform⦄ nothing pool 516 ≡ ok (pool, 9002))
jump_to-get_exec_example =
    jump_to-get_exec ⦃v = vendor⦄ ⦃cb = callbacks⦄ ⦃p = platform⦄ accepting nothing pool 1024 516 2
      no_calls (inl (omega arith)) (compiled 516 2 at_516 refl refl (omega arith))
