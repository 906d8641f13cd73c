-- ===== src/Branch/Conditions.antt =====
-- src/runner/compiler/branch.rs: conditions, their inverses, and conditional jumps to a label.
use xob.Base.{ℕ, [], ◌∷◌}
use xob.Vendor.{Vendor}
use xob.Vendor.Bad64.{Condition}
use xob.Vendor.Iced.{Arg, Mnemonic}
use xob.Assembler.{Asm, asm}

unfoldable pub inverse_condition : Condition → Condition
inverse_condition Condition.mi = Condition.pl
inverse_condition Condition.pl = Condition.mi
inverse_condition Condition.eq = Condition.ne
inverse_condition Condition.ne = Condition.eq
inverse_condition Condition.vs = Condition.vc
inverse_condition Condition.vc = Condition.vs
inverse_condition Condition.cs = Condition.cc
inverse_condition Condition.cc = Condition.cs
inverse_condition Condition.hi = Condition.ls
inverse_condition Condition.ls = Condition.hi
inverse_condition Condition.ge = Condition.lt
inverse_condition Condition.lt = Condition.ge
inverse_condition Condition.gt = Condition.le
inverse_condition Condition.le = Condition.gt
inverse_condition Condition.al = Condition.nv
inverse_condition Condition.nv = Condition.al

-- The method of `CodeAssembler` that `make_jcc` calls.
unfoldable pub jcc : Condition → Mnemonic
jcc Condition.eq = Mnemonic.je
jcc Condition.ne = Mnemonic.jne
jcc Condition.lt = Mnemonic.jl
jcc Condition.ge = Mnemonic.jge
jcc Condition.gt = Mnemonic.jg
jcc Condition.le = Mnemonic.jle
jcc Condition.cc = Mnemonic.jnc
jcc Condition.cs = Mnemonic.jc
jcc Condition.hi = Mnemonic.ja
jcc Condition.ls = Mnemonic.jbe
jcc Condition.vc = Mnemonic.jno
jcc Condition.vs = Mnemonic.jo
jcc Condition.mi = Mnemonic.js
jcc Condition.pl = Mnemonic.jns
jcc Condition.al = Mnemonic.jmp
jcc Condition.nv = Mnemonic.jmp

module _ ⦃v : Vendor⦄ where
  unfoldable pub make_jcc : Condition → ℕ → Asm (Unit {0})
  unfolding jcc asm
  make_jcc cond label = asm (jcc cond) (Arg.label label ∷ [])
