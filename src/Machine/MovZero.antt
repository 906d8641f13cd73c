-- ===== src/Machine/MovZero.antt =====
-- MOV from XZR clears the place of the destination.
use mathlib.Core.Path.{subst}
use xob.Base.{
  zero, suc, ◌/◌, ◌%◌, ◌==◌, Bool-cases, inl, inr, ℕ, ◌≤◌, ◌≡◌, refl, none, [], ◌∷◌, arith,
}
use xob.Outcome.{ok}
use xob.Vendor.{Vendor}
use xob.Vendor.Laws.{ArmLaws, RegisterLaws}
use xob.Vendor.Bad64
use xob.Vendor.Bad64.{Reg, Op}
use xob.Register.{
  RegClass, NativeRegClass, RegTranslation, translate_reg, translate_direct, translate_indirect_reg,
  to_native_class,
}
use xob.Register.Classes.{get_reg_class-xzr}
use xob.Register.Allocation.{place_of, at_place, translate-place_of}
use xob.InstrUtils.{make_mov_rr}
use xob.InstrUtils.Codes.{xor_rr_codes}
use xob.Arith.Operands.{operand_reg}
use xob.Arith.Moves.{translate_mov}
use xob.Machine.{State, Isa, Width, Accepting, Computes, Denotes}
use xob.Machine.Logical.{bitwise, differs, on_bits}
use xob.Machine.Rr.{make_rr-Computes}

abbrev pub mov_xzr : ℕ → ℕ → Bad64.Instruction
mov_xzr address d = record {
  op = Op.mov;
  operands = Bad64.Operand.reg (Reg.x_reg d) none ∷ Bad64.Operand.reg Reg.xzr none ∷ [];
  address = address;
}

module _ ⦃v : Vendor⦄ (laws : ArmLaws v) where
  indirect_xzr :
      translate_indirect_reg Reg.xzr RegClass.gpr64 ≡ ok (RegTranslation.zero NativeRegClass.gpr64)
  unfolding translate_indirect_reg to_native_class
  indirect_xzr = ground (
    arith,
    laws.xzr_number,
    laws.x_number 18 (omega arith),
    laws.x_number 24 (omega arith),
    laws.x_number 28 (omega arith),
    laws.q_number 8 (omega arith),
    laws.q_number 15 (omega arith),
    laws.q_number 23 (omega arith),
    laws.q_number 31 (omega arith),
    laws.v_number 8 (omega arith),
    laws.v_number 15 (omega arith),
    laws.v_number 23 (omega arith),
    laws.v_number 31 (omega arith),
    laws.x_below_v,
    laws.v_below_b,
    laws.b_below_h,
    laws.h_below_s,
    laws.s_below_d,
    laws.d_below_q,
  )

  translate_xzr :
      translate_reg Reg.xzr none ≡ ok (RegTranslation.zero NativeRegClass.gpr64, RegClass.gpr64)
  unfolding translate_reg translate_direct
  translate_xzr = rw (get_reg_class-xzr laws, indirect_xzr) refl

bitwise-same : (n x : ℕ) → bitwise differs n x x ≡ 0
bitwise-same zero x = refl
bitwise-same (suc n) x = elim (Bool-cases (x % 2 == 1)) [
  | inl odd ↦ rw (odd, bitwise-same n (x / 2)) refl
  | inr even ↦ rw (even, bitwise-same n (x / 2)) refl
]

module _ ⦃v : Vendor⦄ (acc : Accepting v) (regs : RegisterLaws v) (laws : ArmLaws v) {isa : Isa}
    (flags : Width → ℕ → ℕ → ℕ → ℕ) (xors : Denotes isa xor_rr_codes (on_bits differs flags)) where
  -- Where iced refuses nothing and the codes of XOR compute the exclusive or, the code for MOV from XZR to
  -- one of X0 to X30 leaves 0 in the place of the destination, and changes no other place but the
  -- scratch register. The flags are not kept: they are those of XOR of the place with itself.
  pub translate_mov-zero :
      (address d : ℕ) (s : State)
      → d ≤ 30
      → Computes isa
          (translate_mov (mov_xzr address d))
          s
          (place_of d)
          0
          (flags Width.wide s.flags (s.places (place_of d)) (s.places (place_of d)))
  unfolding translate_mov operand_reg make_mov_rr
  translate_mov-zero address d s hd a =
      let (ed, _) = translate-place_of regs laws d none hd in
      rw (ed, translate_xzr laws)
        (subst
          (λ (n : ℕ).
            Computes isa
              (make_mov_rr RegClass.gpr64 (at_place NativeRegClass.gpr64 (place_of d))
                (RegTranslation.zero NativeRegClass.gpr64))
              s (place_of d) n
              (flags Width.wide s.flags (s.places (place_of d)) (s.places (place_of d))))
          (bitwise-same 64 (s.places (place_of d)))
          (make_rr-Computes acc xors RegClass.gpr64 (place_of d) (place_of d) s refl) a)
