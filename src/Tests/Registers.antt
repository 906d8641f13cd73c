-- ===== src/Tests/Registers.antt =====
-- The register allocation on the concrete numbering.
use xob.Base.{ℕ, ◌≡◌, ◌≢◌, ◌↔◌, ◌≤◌, ◌+◌, arith, none, List, [], ◌∷◌}
use xob.Outcome.{ok}
use xob.Vendor.Bad64.{Reg}
use xob.Vendor.Iced.{r10, r14}
use xob.Register.{NativeRegClass, RegClass, RegTranslation, translate_reg}
use xob.Register.Context.{indirect_fp_regs_offset}
use xob.Register.Allocation.{Shares, translate-place_of, translate_reg-sharing, slot_bounds}
use xob.Tests.Setup.{vendor, arm_laws, register_laws}

-- X13 and X24.
translate_reg-sharing_example :
    (translate_reg ⦃v = vendor⦄ (Reg.x_reg 13) none
      ≡ translate_reg ⦃v = vendor⦄ (Reg.x_reg 24) none)
    ↔ Shares 13 24
translate_reg-sharing_example =
    translate_reg-sharing ⦃v = vendor⦄ register_laws arm_laws 13 24 (omega arith) (omega arith)

x18_slot :
    translate_reg ⦃v = vendor⦄ (Reg.x_reg 18) none
    ≡ ok (RegTranslation.indirect 144 NativeRegClass.gpr64, RegClass.gpr64)
x18_slot = (translate-place_of ⦃v = vendor⦄ register_laws arm_laws 18 none (omega arith)).0

slot_bounds_example :
    ((144 + 8 ≤ indirect_fp_regs_offset) ↔ (◌≢◌ {A = ℕ} 18 18))
    × (◌≡◌ {A = ℕ} 18 18 → 144 ≡ indirect_fp_regs_offset)
slot_bounds_example =
    slot_bounds ⦃v = vendor⦄ register_laws arm_laws 18 144 NativeRegClass.gpr64 (omega arith)
      x18_slot

abbrev blockers : List RegTranslation
blockers = RegTranslation.direct r10 ∷ RegTranslation.direct r14 ∷ []
