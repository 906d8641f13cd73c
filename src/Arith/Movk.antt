-- ===== src/Arith/Movk.antt =====
-- MOVK: the operands of the AND and the OR that it becomes.
use xob.Base.{
  ℕ, zero, suc, ◌-◌, ◌*◌, ◌^◌, ◌%◌, ◌<◌, ◌≤◌, ◌≡◌, ◌∙◌, ◌↔◌, ◌⊎◌, inl, inr, refl, some, none, [],
  ◌∷◌, arith, append_assoc, lt→ltb, ltb, false,
}
use xob.Vendor.{Vendor}
use xob.Vendor.Laws.{ArmLaws, RegisterLaws}
use xob.Vendor.Bad64
use xob.Vendor.Bad64.{Reg, Op, Shift, Imm}
use xob.Vendor.Iced.{Register, Code, OpKind, Call, Mnemonic, Arg, rax}
use xob.Words.{low32, sext32, not64}
use xob.Register.{RegClass, NativeRegClass, unwrap_imm, unwrap_unsigned}
use xob.Register.Access.{set_operand}
use xob.Register.Allocation.{Place, place_of, at_place, translate-place_of}
use xob.Assembler.{Assembler, add_instruction, construct}
use xob.InstrUtils.{make_ri}
use xob.InstrUtils.Codes.{OpRiCodes}
use xob.Arith.Operands.{operand_reg}
use xob.Arith.Moves.{translate_movk, movk_bits, movk_shift, with_rax}
use xob.Machine.Emit.{asm-Emits}
use xob.Machine.{Accepting, Emits, plain, with_slot}

-- `MOVK Xd, #imm, LSL #(16 * j)`
abbrev pub movk : ℕ → ℕ → ℕ → ℕ → Bad64.Instruction
movk address d imm j = record {
  op = Op.movk;
  operands =
      Bad64.Operand.reg (Reg.x_reg d) none
      ∷ Bad64.Operand.imm64 (Imm.unsigned imm) (some (Shift.lsl (16 * j)))
      ∷ [];
  address = address;
}

-- A 64-bit instruction on a place and another operand.
abbrev pub on_place : Code → Place → OpKind → Call
on_place code (Place.hardware i) k = plain code (OpKind.register (Register.r64 i)) k
on_place code (Place.slot o) k = with_slot o code OpKind.memory k

-- The bits that MOVK keeps, and those that it sets.
abbrev pub kept : ℕ → ℕ
kept j = 2 ^ 64 - 1 - 65535 * 2 ^ (16 * j)

abbrev pub field : ℕ → ℕ → ℕ
field imm j = imm * 2 ^ (16 * j)

lt→not_ltb : (a b : ℕ) → b ≤ a → ltb a b ≡ false
lt→not_ltb a b h = ground arith

module _ ⦃v : Vendor⦄ (acc : Accepting v) where
  make_ri-Emits :
      (codes : OpRiCodes) (p : Place) (n : ℕ) (a : Assembler)
      → Emits
          (make_ri codes RegClass.gpr64 (at_place NativeRegClass.gpr64 p) n)
          a
          (on_place codes.rm64_imm32 p (OpKind.immediate n) ∷ [])
  unfolding make_ri construct set_operand add_instruction
  make_ri-Emits codes (Place.hardware i) n a = simp (acc.constructs_all, acc.accepts_all)
  make_ri-Emits codes (Place.slot o) n a = simp (acc.constructs_all, acc.accepts_all)

  with_rax-Emits :
      (code : Code) (p : Place) (a : Assembler)
      → Emits
          (with_rax code (at_place NativeRegClass.gpr64 p))
          a
          (on_place code p (OpKind.register rax) ∷ [])
  unfolding with_rax construct set_operand add_instruction
  with_rax-Emits code (Place.hardware i) a = simp (acc.constructs_all, acc.accepts_all)
  with_rax-Emits code (Place.slot o) a = simp (acc.constructs_all, acc.accepts_all)

  low_bits :
      (p : Place) (shift mask imm : ℕ) (a : Assembler)
      → shift ≤ 16
      → Emits (movk_bits RegClass.gpr64 (at_place NativeRegClass.gpr64 p) shift mask imm) a (
          on_place Code.and_rm64_imm32 p (OpKind.immediate (low32 mask))
          ∷ on_place Code.or_rm64_imm32 p (OpKind.immediate (low32 imm))
          ∷ [])
  unfolding movk_bits
  low_bits p shift mask imm a h = rw (lt→not_ltb 16 shift h) (simp (make_ri-Emits, append_assoc))

  high_bits :
      (p : Place) (shift mask imm : ℕ) (a : Assembler)
      → 16 < shift
      → Emits (movk_bits RegClass.gpr64 (at_place NativeRegClass.gpr64 p) shift mask imm) a (
          Call.asm Mnemonic.mov (Arg.reg rax ∷ Arg.imm mask ∷ [])
          ∷ on_place Code.and_rm64_r64 p (OpKind.register rax)
          ∷ Call.asm Mnemonic.mov (Arg.reg rax ∷ Arg.imm imm ∷ [])
          ∷ on_place Code.or_rm64_r64 p (OpKind.register rax)
          ∷ [])
  unfolding movk_bits
  high_bits p shift mask imm a h =
      rw (lt→ltb 16 shift h) (simp (asm-Emits acc, with_rax-Emits, append_assoc))

-- An immediate of a 64-bit instruction is sign-extended: for a shift of 0 the AND keeps what it
-- should, for a shift of 16 it does not.
kept_low :
    (j : ℕ) → j < 2 → (sext32 (low32 (not64 (65535 * 2 ^ (16 * j) % 2 ^ 64))) ≡ kept j) ↔ (j ≡ 0)
kept_low zero h = (λ _. refl, λ _. refl)
kept_low (suc zero) h = (λ e. ground arith, λ e. absurd (omega arith))
kept_low (suc (suc j)) h = absurd (omega arith)

field_low :
    (imm j : ℕ)
    → imm < 2 ^ 16
    → j < 2
    → (sext32 (low32 (field imm j % 2 ^ 64)) ≡ field imm j) ↔ ((j ≡ 0) ⊎ (imm < 2 ^ 15))
field_low imm zero h lt = (λ _. inl refl, λ _. ground arith)
field_low imm (suc zero) h lt = (
  λ e. inr (ground arith),
  λ e. elim e [ inl z ↦ absurd (omega arith) | inr small ↦ ground arith ],
)
field_low imm (suc (suc j)) h lt = absurd (omega arith)

kept_high : (j : ℕ) → j < 4 → not64 (65535 * 2 ^ (16 * j) % 2 ^ 64) ≡ kept j
kept_high zero h = refl
kept_high (suc zero) h = refl
kept_high (suc (suc zero)) h = refl
kept_high (suc (suc (suc zero))) h = refl
kept_high (suc (suc (suc (suc j)))) h = absurd (omega arith)

field_high : (imm j : ℕ) → imm < 2 ^ 16 → j < 4 → field imm j % 2 ^ 64 ≡ field imm j
field_high imm zero h lt = ground arith
field_high imm (suc zero) h lt = ground arith
field_high imm (suc (suc zero)) h lt = ground arith
field_high imm (suc (suc (suc zero))) h lt = ground arith
field_high imm (suc (suc (suc (suc j)))) h lt = absurd (omega arith)

module _ ⦃v : Vendor⦄ (acc : Accepting v) (regs : RegisterLaws v) (laws : ArmLaws v) where
  movk_is_bits :
      (address d imm j : ℕ) (a : Assembler)
      → d ≤ 30
      → j < 4
      → translate_movk (movk address d imm j) a
        ≡ movk_bits RegClass.gpr64
            (at_place NativeRegClass.gpr64 (place_of d))
            (16 * j)
            (not64 (65535 * 2 ^ (16 * j) % 2 ^ 64))
            (field imm j % 2 ^ 64)
            a
  unfolding translate_movk movk_shift operand_reg unwrap_imm unwrap_unsigned
  movk_is_bits address d imm j a hd hj =
      let (ed, _) = translate-place_of regs laws d none hd in
      rw (ed, lt→ltb (16 * j) 64 (omega arith)) refl

  -- Where iced refuses nothing, MOVK of a 16-bit value into one of X0 to X30 with a shift of 0 or 16
  -- becomes an AND and an OR of 32-bit immediates. Sign-extended to 64 bits, the first keeps the bits
  -- that MOVK keeps exactly for a shift of 0, and the second sets the bits that MOVK sets exactly for
  -- a shift of 0 or a value below 2 ^ 15.
  pub translate_movk-low :
      (address d imm j : ℕ) (a : Assembler)
      → d ≤ 30
      → imm < 2 ^ 16
      → j < 2
      → (mask : ℕ) × (bits : ℕ) × Emits (translate_movk (movk address d imm j)) a (
          on_place Code.and_rm64_imm32 (place_of d) (OpKind.immediate mask)
          ∷ on_place Code.or_rm64_imm32 (place_of d) (OpKind.immediate bits)
          ∷ [])
        × ((sext32 mask ≡ kept j) ↔ (j ≡ 0))
        × ((sext32 bits ≡ field imm j) ↔ ((j ≡ 0) ⊎ (imm < 2 ^ 15)))
  translate_movk-low address d imm j a hd hi hj = (
    _,
    _,
    movk_is_bits address d imm j a hd (omega arith)
        ∙ low_bits acc (place_of d) (16 * j) (not64 (65535 * 2 ^ (16 * j) % 2 ^ 64))
            (field imm j % 2 ^ 64) a (omega arith),
    kept_low j hj,
    field_low imm j hi hj,
  )

  -- Where iced refuses nothing, MOVK of a 16-bit value into one of X0 to X30 with a shift of 32 or 48
  -- loads the 64-bit mask of the bits that MOVK keeps into the scratch register for an AND, and the
  -- bits that it sets for an OR.
  pub translate_movk-high :
      (address d imm j : ℕ) (a : Assembler)
      → d ≤ 30
      → imm < 2 ^ 16
      → 2 ≤ j
      → j < 4
      → Emits (translate_movk (movk address d imm j)) a (
          Call.asm Mnemonic.mov (Arg.reg rax ∷ Arg.imm (kept j) ∷ [])
          ∷ on_place Code.and_rm64_r64 (place_of d) (OpKind.register rax)
          ∷ Call.asm Mnemonic.mov (Arg.reg rax ∷ Arg.imm (field imm j) ∷ [])
          ∷ on_place Code.or_rm64_r64 (place_of d) (OpKind.register rax)
          ∷ [])
  translate_movk-high address d imm j a hd hi lo hj =
      movk_is_bits address d imm j a hd hj
      ∙ rw (kept_high j hj, field_high imm j hi hj)
          (high_bits acc (place_of d) (16 * j) (kept j) (field imm j) a (omega arith))
