-- ===== src/Machine/Rr.antt =====
-- `make_rr` performs its operation on any two places, through the scratch register where both are
-- slots.
use xob.Base.{◌≡◌, refl, true, append_assoc, [], ◌∷◌}
use xob.Vendor.{Vendor}
use xob.Vendor.Iced.{Register, OpKind, rax, eax}
use xob.Register.{RegClass, NativeRegClass, is_indirect}
use xob.Register.Access.{set_operand, set_reg_operand, pre_read, post_write}
use xob.Register.Allocation.{Place, at_place}
use xob.Assembler.{add_instruction, construct}
use xob.InstrUtils.{make_rr}
use xob.InstrUtils.Codes.{OpRrCodes}
use xob.Machine.{
  State, Width, Isa, Operation, Accepting, Computes, Denotes, new_value, new_flags, width_of,
  is_gpr, translation, plain, with_slot, load_slot, store_slot,
}
use xob.Machine.Frame.{update-Leaves, scratch-Leaves, stored-Leaves, low32, mod_mod}

module _ ⦃v : Vendor⦄ (acc : Accepting v) {isa : Isa} {codes : OpRrCodes} {op : Operation}
    (ops : Denotes isa codes op) where
  rr64 :
      (d p : Place) (s : State)
      → Computes isa
          (make_rr codes RegClass.gpr64
            (at_place NativeRegClass.gpr64 d)
            (at_place NativeRegClass.gpr64 p))
          s
          d
          (new_value op Width.wide d (s.places d) (s.places d) (s.places p))
          (new_flags op Width.wide s.flags (s.places d) (s.places p))
  unfolding make_rr add_instruction construct set_operand pre_read post_write set_reg_operand
      is_indirect
  rr64 (Place.hardware i) (Place.hardware j) s a = (
    plain codes.rm64_r64 (OpKind.register (Register.r64 i)) (OpKind.register (Register.r64 j)) ∷ [],
    _,
    simp (acc.constructs_all, acc.accepts_all),
    rw (ops.rm64.width, ops.rm64.result, ops.rm64.flags) refl,
    update-Leaves s.places (Place.hardware i) _,
    refl,
  )
  rr64 (Place.hardware i) (Place.slot j) s a = (
    with_slot j codes.r64_rm64 (OpKind.register (Register.r64 i)) OpKind.memory ∷ [],
    _,
    simp (acc.constructs_all, acc.accepts_all),
    rw (ops.r64.width, ops.r64.result, ops.r64.flags) refl,
    update-Leaves s.places (Place.hardware i) _,
    refl,
  )
  rr64 (Place.slot i) (Place.hardware j) s a = (
    with_slot i codes.rm64_r64 OpKind.memory (OpKind.register (Register.r64 j)) ∷ [],
    _,
    simp (acc.constructs_all, acc.accepts_all),
    rw (ops.rm64.width, ops.rm64.result, ops.rm64.flags) refl,
    update-Leaves s.places (Place.slot i) _,
    refl,
  )
  rr64 (Place.slot i) (Place.slot j) s a = (
    load_slot rax i
        ∷ with_slot j codes.r64_rm64 (OpKind.register rax) OpKind.memory
        ∷ store_slot i rax
        ∷ [],
    _,
    simp (acc.constructs_all, acc.accepts_all, append_assoc),
    rw (ops.r64.width, ops.r64.result, ops.r64.flags) refl,
    scratch-Leaves s.places (Place.slot i) (s.places (Place.slot i)) _,
    refl,
  )

  rr32 :
      (d p : Place) (s : State)
      → Computes isa
          (make_rr codes RegClass.gpr32
            (at_place NativeRegClass.gpr32 d)
            (at_place NativeRegClass.gpr32 p))
          s
          d
          (new_value op Width.narrow d (s.places d) (s.places d) (s.places p))
          (new_flags op Width.narrow s.flags (s.places d) (s.places p))
  unfolding make_rr add_instruction construct set_operand pre_read post_write set_reg_operand
      is_indirect
  rr32 (Place.hardware i) (Place.hardware j) s a = (
    plain codes.rm32_r32 (OpKind.register (Register.r32 i)) (OpKind.register (Register.r32 j)) ∷ [],
    _,
    simp (acc.constructs_all, acc.accepts_all),
    rw (ops.rm32.width, ops.rm32.result, ops.rm32.flags) refl,
    update-Leaves s.places (Place.hardware i) _,
    refl,
  )
  rr32 (Place.hardware i) (Place.slot j) s a = (
    with_slot j codes.r32_rm32 (OpKind.register (Register.r32 i)) OpKind.memory ∷ [],
    _,
    simp (acc.constructs_all, acc.accepts_all),
    rw (ops.r32.width, ops.r32.result, ops.r32.flags) refl,
    update-Leaves s.places (Place.hardware i) _,
    refl,
  )
  rr32 (Place.slot i) (Place.hardware j) s a = (
    with_slot i codes.rm32_r32 OpKind.memory (OpKind.register (Register.r32 j)) ∷ [],
    _,
    simp (acc.constructs_all, acc.accepts_all),
    rw (ops.rm32.width, ops.rm32.result, ops.rm32.flags) refl,
    update-Leaves s.places (Place.slot i) _,
    refl,
  )
  rr32 (Place.slot i) (Place.slot j) s a = (
    load_slot eax i
        ∷ with_slot j codes.r32_rm32 (OpKind.register eax) OpKind.memory
        ∷ store_slot i eax
        ∷ [],
    _,
    simp (acc.constructs_all, acc.accepts_all, append_assoc),
    rw (ops.r32.width, ops.r32.result, ops.r32.flags) (simp mod_mod),
    stored-Leaves s.places (Place.slot i) (low32 (s.places (Place.slot i)))
        (low32 (
          op.result Width.narrow (low32 (s.places (Place.slot i)))
            (low32 (s.places (Place.slot j)))))
        _,
    refl,
  )

  -- Where iced refuses nothing, for a 32-bit or 64-bit operation, `make_rr` emits code that leaves the result of the operation on
  -- the two places in the first, and the flags that the operation leaves, and changes no other place but
  -- the scratch register. At 32 bits the low halves are read; a register is cleared above the result,
  -- and a slot keeps its upper half.
  pub make_rr-Computes :
      (c : RegClass) (d p : Place) (s : State)
      → is_gpr c ≡ true
      → Computes isa
          (make_rr codes c (translation c d) (translation c p))
          s
          d
          (new_value op (width_of c) d (s.places d) (s.places d) (s.places p))
          (new_flags op (width_of c) s.flags (s.places d) (s.places p))
  make_rr-Computes RegClass.gpr64 d p s h = rr64 d p s
  make_rr-Computes RegClass.gpr32 d p s h = rr32 d p s
  make_rr-Computes _ d p s h = cc
