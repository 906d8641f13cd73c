-- ===== src/Machine/Emit.antt =====
-- What one call on the assembler emits.
use xob.Base.{List, [], ◌∷◌, refl}
use xob.Vendor.{Vendor}
use xob.Vendor.Iced.{Call, Mnemonic, Arg}
use xob.Assembler.{Assembler, asm, emit}
use xob.Machine.{Accepting, Emits}

pub asm-Emits :
    ⦃v : Vendor⦄ (acc : Accepting v) (op : Mnemonic) (args : List Arg) (a : Assembler)
    → Emits (asm op args) a (Call.asm op args ∷ [])
unfolding asm emit
asm-Emits acc op args a = rw acc.accepts_all refl
