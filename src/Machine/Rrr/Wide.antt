-- ===== src/Machine/Rrr/Wide.antt =====
-- The two instructions of `make_rrr` at 64 bits.
use xob.Base.{==_refl, ◌≢◌, refl, append_assoc, [], ◌∷◌}
use xob.Vendor.{Vendor}
use xob.Vendor.Iced.{Register, Code, OpKind, rax}
use xob.Register.{RegClass, NativeRegClass}
use xob.Register.Access.{set_operand, set_reg_operand, post_write}
use xob.Register.Allocation.{Place, at_place}
use xob.Assembler.{add_instruction, construct}
use xob.Arith.Rrr.{rrr_codes}
use xob.InstrUtils.Codes.{OpRrCodes}
use xob.Machine.{
  State, Isa, Operation, Acts, Width, copying, new_value, new_flags, Accepting, Computes, Denotes,
  plain, with_slot, store_slot, scratch_place,
}
use xob.Machine.Rrr.{second, not_scratch}
use xob.Machine.Frame.{twice-Leaves, stored-Leaves}

module _ ⦃v : Vendor⦄ (acc : Accepting v) {isa : Isa} {codes : OpRrCodes} {op : Operation}
    (ops : Denotes isa codes op) where
  pub rrr64 :
      (d p q : Place) (s : State)
      → Acts isa Code.mov_r64_rm64 Width.wide copying
      → scratch_place ≢ q
      → Computes isa
          (rrr_codes codes
            (at_place NativeRegClass.gpr64 d)
            (at_place NativeRegClass.gpr64 p)
            (at_place NativeRegClass.gpr64 q)
            RegClass.gpr64)
          s
          d
          (new_value op Width.wide d (s.places d) (s.places p) (second Width.wide s.places d p q))
          (new_flags op Width.wide s.flags (s.places p) (second Width.wide s.places d p q))
  unfolding rrr_codes add_instruction construct set_operand post_write set_reg_operand
  rrr64 (Place.hardware i) (Place.hardware j) (Place.hardware k) s mov ne a = (
    plain Code.mov_r64_rm64 (OpKind.register (Register.r64 i)) (OpKind.register (Register.r64 j))
        ∷ plain codes.r64_rm64 (OpKind.register (Register.r64 i)) (OpKind.register (Register.r64 k))
        ∷ [],
    _,
    simp (acc.constructs_all, acc.accepts_all, append_assoc),
    rw (mov.width, mov.result, mov.flags, ops.r64.width, ops.r64.result, ops.r64.flags)
        (simp (==_refl)),
    twice-Leaves s.places (Place.hardware i) (s.places (Place.hardware j)) _,
    refl,
  )
  rrr64 (Place.hardware i) (Place.hardware j) (Place.slot k) s mov ne a = (
    plain Code.mov_r64_rm64 (OpKind.register (Register.r64 i)) (OpKind.register (Register.r64 j))
        ∷ with_slot k codes.r64_rm64 (OpKind.register (Register.r64 i)) OpKind.memory
        ∷ [],
    _,
    simp (acc.constructs_all, acc.accepts_all, append_assoc),
    rw (mov.width, mov.result, mov.flags, ops.r64.width, ops.r64.result, ops.r64.flags)
        (simp (==_refl)),
    twice-Leaves s.places (Place.hardware i) (s.places (Place.hardware j)) _,
    refl,
  )
  rrr64 (Place.hardware i) (Place.slot j) (Place.hardware k) s mov ne a = (
    with_slot j Code.mov_r64_rm64 (OpKind.register (Register.r64 i)) OpKind.memory
        ∷ plain codes.r64_rm64 (OpKind.register (Register.r64 i)) (OpKind.register (Register.r64 k))
        ∷ [],
    _,
    simp (acc.constructs_all, acc.accepts_all, append_assoc),
    rw (mov.width, mov.result, mov.flags, ops.r64.width, ops.r64.result, ops.r64.flags)
        (simp (==_refl)),
    twice-Leaves s.places (Place.hardware i) (s.places (Place.slot j)) _,
    refl,
  )
  rrr64 (Place.hardware i) (Place.slot j) (Place.slot k) s mov ne a = (
    with_slot j Code.mov_r64_rm64 (OpKind.register (Register.r64 i)) OpKind.memory
        ∷ with_slot k codes.r64_rm64 (OpKind.register (Register.r64 i)) OpKind.memory
        ∷ [],
    _,
    simp (acc.constructs_all, acc.accepts_all, append_assoc),
    rw (mov.width, mov.result, mov.flags, ops.r64.width, ops.r64.result, ops.r64.flags)
        (simp (==_refl)),
    twice-Leaves s.places (Place.hardware i) (s.places (Place.slot j)) _,
    refl,
  )
  rrr64 (Place.slot i) (Place.hardware j) (Place.hardware k) s mov ne a = (
    plain Code.mov_r64_rm64 (OpKind.register rax) (OpKind.register (Register.r64 j))
        ∷ plain codes.r64_rm64 (OpKind.register rax) (OpKind.register (Register.r64 k))
        ∷ store_slot i rax
        ∷ [],
    _,
    simp (acc.constructs_all, acc.accepts_all, append_assoc),
    rw (mov.width, mov.result, mov.flags, ops.r64.width, ops.r64.result, ops.r64.flags)
        (simp (not_scratch k ne)),
    stored-Leaves s.places (Place.slot i) (s.places (Place.hardware j))
        (op.result Width.wide (s.places (Place.hardware j)) (s.places (Place.hardware k))) _,
    refl,
  )
  rrr64 (Place.slot i) (Place.hardware j) (Place.slot k) s mov ne a = (
    plain Code.mov_r64_rm64 (OpKind.register rax) (OpKind.register (Register.r64 j))
        ∷ with_slot k codes.r64_rm64 (OpKind.register rax) OpKind.memory
        ∷ store_slot i rax
        ∷ [],
    _,
    simp (acc.constructs_all, acc.accepts_all, append_assoc),
    rw (mov.width, mov.result, mov.flags, ops.r64.width, ops.r64.result, ops.r64.flags) (refl),
    stored-Leaves s.places (Place.slot i) (s.places (Place.hardware j))
        (op.result Width.wide (s.places (Place.hardware j)) (s.places (Place.slot k))) _,
    refl,
  )
  rrr64 (Place.slot i) (Place.slot j) (Place.hardware k) s mov ne a = (
    with_slot j Code.mov_r64_rm64 (OpKind.register rax) OpKind.memory
        ∷ plain codes.r64_rm64 (OpKind.register rax) (OpKind.register (Register.r64 k))
        ∷ store_slot i rax
        ∷ [],
    _,
    simp (acc.constructs_all, acc.accepts_all, append_assoc),
    rw (mov.width, mov.result, mov.flags, ops.r64.width, ops.r64.result, ops.r64.flags)
        (simp (not_scratch k ne)),
    stored-Leaves s.places (Place.slot i) (s.places (Place.slot j))
        (op.result Width.wide (s.places (Place.slot j)) (s.places (Place.hardware k))) _,
    refl,
  )
  rrr64 (Place.slot i) (Place.slot j) (Place.slot k) s mov ne a = (
    with_slot j Code.mov_r64_rm64 (OpKind.register rax) OpKind.memory
        ∷ with_slot k codes.r64_rm64 (OpKind.register rax) OpKind.memory
        ∷ store_slot i rax
        ∷ [],
    _,
    simp (acc.constructs_all, acc.accepts_all, append_assoc),
    rw (mov.width, mov.result, mov.flags, ops.r64.width, ops.r64.result, ops.r64.flags) (refl),
    stored-Leaves s.places (Place.slot i) (s.places (Place.slot j))
        (op.result Width.wide (s.places (Place.slot j)) (s.places (Place.slot k))) _,
    refl,
  )
