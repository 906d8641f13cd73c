-- ===== src/Pauth.antt =====
-- src/runner/compiler/pauth.rs: pointer authentication, which the translation drops.
use xob.Base.{Bool, true, false}
use xob.Vendor.Bad64
use xob.Vendor.Bad64.{Op}
use xob.Assembler.{Asm, pure}

unfoldable pub is_pauth : Op → Bool
is_pauth Op.paciasp = true
is_pauth Op.paciaz = true
is_pauth Op.pacia1716 = true
is_pauth Op.pacibsp = true
is_pauth Op.pacibz = true
is_pauth Op.pacib1716 = true
is_pauth Op.pacia = true
is_pauth Op.pacda = true
is_pauth Op.pacib = true
is_pauth Op.pacdb = true
is_pauth Op.paciza = true
is_pauth Op.pacdza = true
is_pauth Op.pacizb = true
is_pauth Op.pacdzb = true
is_pauth Op.autiasp = true
is_pauth Op.autiaz = true
is_pauth Op.autia1716 = true
is_pauth Op.autibsp = true
is_pauth Op.autibz = true
is_pauth Op.autib1716 = true
is_pauth Op.autia = true
is_pauth Op.autda = true
is_pauth Op.autib = true
is_pauth Op.autdb = true
is_pauth Op.autiza = true
is_pauth Op.autdza = true
is_pauth Op.autizb = true
is_pauth Op.autdzb = true
is_pauth Op.xpacd = true
is_pauth Op.xpaci = true
is_pauth Op.xpaclri = true
is_pauth _ = false

unfoldable pub compile_instr : Bad64.Instruction → Asm Bool
unfolding is_pauth
compile_instr arm_instr = pure (is_pauth arm_instr.op)
