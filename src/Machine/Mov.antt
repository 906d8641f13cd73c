-- ===== src/Machine/Mov.antt =====
-- `make_mov_rr` copies between any two places, and MOV between registers does what it says.
use xob.Base.{ℕ, ◌≤◌, refl, none, append_assoc, [], ◌∷◌}
use xob.Vendor.{Vendor}
use xob.Vendor.Laws.{ArmLaws, RegisterLaws}
use xob.Vendor.Bad64
use xob.Vendor.Bad64.{Reg, Op}
use xob.Vendor.Iced.{Register, Code, OpKind, rax, eax}
use xob.Register.{RegClass, NativeRegClass, is_indirect}
use xob.Register.Access.{set_operand, set_reg_operand, post_write}
use xob.Register.Allocation.{Place, at_place, place_of, translate-place_of}
use xob.Assembler.{add_instruction, construct}
use xob.InstrUtils.{make_mov_rr}
use xob.InstrUtils.Codes.{mov_rr_codes}
use xob.Arith.Operands.{operand_reg}
use xob.Arith.Moves.{translate_mov}
use xob.Machine.{
  State, Isa, Width, merged, copying, Accepting, Computes, Denotes, plain, with_slot, store_slot,
}
use xob.Machine.Frame.{update-Leaves, loaded-Leaves, low32, mod_mod}

module _ ⦃v : Vendor⦄ (acc : Accepting v) {isa : Isa}
    (moves : Denotes isa mov_rr_codes copying) where
  mov64 :
      (d p : Place) (s : State)
      → Computes isa
          (make_mov_rr RegClass.gpr64
            (at_place NativeRegClass.gpr64 d)
            (at_place NativeRegClass.gpr64 p))
          s
          d
          (s.places p)
          s.flags
  unfolding make_mov_rr add_instruction construct set_operand post_write set_reg_operand is_indirect
  mov64 (Place.hardware i) (Place.hardware j) s a = (
    plain Code.mov_rm64_r64 (OpKind.register (Register.r64 i)) (OpKind.register (Register.r64 j))
        ∷ [],
    _,
    simp (acc.constructs_all, acc.accepts_all),
    rw (moves.rm64.width, moves.rm64.result, moves.rm64.flags) refl,
    update-Leaves s.places (Place.hardware i) _,
    refl,
  )
  mov64 (Place.hardware i) (Place.slot j) s a = (
    with_slot j Code.mov_r64_rm64 (OpKind.register (Register.r64 i)) OpKind.memory ∷ [],
    _,
    simp (acc.constructs_all, acc.accepts_all),
    rw (moves.r64.width, moves.r64.result, moves.r64.flags) refl,
    update-Leaves s.places (Place.hardware i) _,
    refl,
  )
  mov64 (Place.slot i) (Place.hardware j) s a = (
    with_slot i Code.mov_rm64_r64 OpKind.memory (OpKind.register (Register.r64 j)) ∷ [],
    _,
    simp (acc.constructs_all, acc.accepts_all),
    rw (moves.rm64.width, moves.rm64.result, moves.rm64.flags) refl,
    update-Leaves s.places (Place.slot i) _,
    refl,
  )
  mov64 (Place.slot i) (Place.slot j) s a = (
    with_slot j Code.mov_r64_rm64 (OpKind.register rax) OpKind.memory ∷ store_slot i rax ∷ [],
    _,
    simp (acc.constructs_all, acc.accepts_all, append_assoc),
    rw (moves.r64.width, moves.r64.result, moves.r64.flags) refl,
    loaded-Leaves s.places (Place.slot i) (s.places (Place.slot j)) _,
    refl,
  )

  mov32 :
      (d p : Place) (s : State)
      → Computes isa
          (make_mov_rr RegClass.gpr32
            (at_place NativeRegClass.gpr32 d)
            (at_place NativeRegClass.gpr32 p))
          s
          d
          (merged Width.narrow d (s.places d) (s.places p))
          s.flags
  unfolding make_mov_rr add_instruction construct set_operand post_write set_reg_operand is_indirect
  mov32 (Place.hardware i) (Place.hardware j) s a = (
    plain Code.mov_rm32_r32 (OpKind.register (Register.r32 i)) (OpKind.register (Register.r32 j))
        ∷ [],
    _,
    simp (acc.constructs_all, acc.accepts_all),
    rw (moves.rm32.width, moves.rm32.result, moves.rm32.flags) (simp mod_mod),
    update-Leaves s.places (Place.hardware i) _,
    refl,
  )
  mov32 (Place.hardware i) (Place.slot j) s a = (
    with_slot j Code.mov_r32_rm32 (OpKind.register (Register.r32 i)) OpKind.memory ∷ [],
    _,
    simp (acc.constructs_all, acc.accepts_all),
    rw (moves.r32.width, moves.r32.result, moves.r32.flags) (simp mod_mod),
    update-Leaves s.places (Place.hardware i) _,
    refl,
  )
  mov32 (Place.slot i) (Place.hardware j) s a = (
    with_slot i Code.mov_rm32_r32 OpKind.memory (OpKind.register (Register.r32 j)) ∷ [],
    _,
    simp (acc.constructs_all, acc.accepts_all),
    rw (moves.rm32.width, moves.rm32.result, moves.rm32.flags) (simp mod_mod),
    update-Leaves s.places (Place.slot i) _,
    refl,
  )
  mov32 (Place.slot i) (Place.slot j) s a = (
    with_slot j Code.mov_r32_rm32 (OpKind.register eax) OpKind.memory ∷ store_slot i eax ∷ [],
    _,
    simp (acc.constructs_all, acc.accepts_all, append_assoc),
    rw (moves.r32.width, moves.r32.result, moves.r32.flags) (simp mod_mod),
    loaded-Leaves s.places (Place.slot i) (low32 (s.places (Place.slot j))) _,
    refl,
  )

abbrev pub mov_registers : (ℕ → Reg) → ℕ → ℕ → ℕ → Bad64.Instruction
mov_registers family address d n = record {
  op = Op.mov;
  operands = Bad64.Operand.reg (family d) none ∷ Bad64.Operand.reg (family n) none ∷ [];
  address = address;
}

module _ ⦃v : Vendor⦄ (acc : Accepting v) (regs : RegisterLaws v) (laws : ArmLaws v) {isa : Isa}
    (moves : Denotes isa mov_rr_codes copying) where
  -- Where iced refuses nothing, the code for MOV between two of X0 to X30 copies the place of the second
  -- to the place of the first. The code for MOV between two of W0 to W30 copies the low half: it clears
  -- the upper half of a destination in a hardware register, and keeps the upper half of a destination
  -- in a slot. Both leave the flags as they are, and no other place is changed but the scratch
  -- register.
  pub translate_mov-Computes :
      (address d n : ℕ) (s : State)
      → d ≤ 30
      → n ≤ 30
      → Computes isa
          (translate_mov (mov_registers Reg.x_reg address d n))
          s
          (place_of d)
          (s.places (place_of n))
          s.flags
        × Computes isa
            (translate_mov (mov_registers Reg.w_reg address d n))
            s
            (place_of d)
            (merged Width.narrow (place_of d) (s.places (place_of d)) (s.places (place_of n)))
            s.flags
  unfolding translate_mov operand_reg
  translate_mov-Computes address d n s hd hn =
      let (ed, ed') = translate-place_of regs laws d none hd in
      let (en, en') = translate-place_of regs laws n none hn in
      (
        λ a. rw (ed, en) (mov64 acc moves (place_of d) (place_of n) s a),
        λ a. rw (ed', en') (mov32 acc moves (place_of d) (place_of n) s a),
      )
