-- ===== src/Machine/Rrr/Narrow.antt =====
-- The two instructions of `make_rrr` at 32 bits.
use xob.Base.{==_refl, ◌≢◌, refl, append_assoc, [], ◌∷◌}
use xob.Vendor.{Vendor}
use xob.Vendor.Iced.{Register, Code, OpKind, eax}
use xob.Register.{RegClass, NativeRegClass}
use xob.Register.Access.{set_operand, set_reg_operand, post_write}
use xob.Register.Allocation.{Place, at_place}
use xob.Assembler.{add_instruction, construct}
use xob.Arith.Rrr.{rrr_codes}
use xob.InstrUtils.Codes.{OpRrCodes}
use xob.Machine.{
  State, Isa, Operation, Acts, Width, copying, new_value, new_flags, Accepting, Computes, Denotes,
  plain, with_slot, store_slot, scratch_place,
}
use xob.Machine.Rrr.{second, not_scratch}
use xob.Machine.Frame.{twice-Leaves, stored-Leaves, low32, mod_mod}

module _ ⦃v : Vendor⦄ (acc : Accepting v) {isa : Isa} {codes : OpRrCodes} {op : Operation}
    (ops : Denotes isa codes op) where
  pub rrr32 :
      (d p q : Place) (s : State)
      → Acts isa Code.mov_r32_rm32 Width.narrow copying
      → scratch_place ≢ q
      → Computes isa
          (rrr_codes codes
            (at_place NativeRegClass.gpr32 d)
            (at_place NativeRegClass.gpr32 p)
            (at_place NativeRegClass.gpr32 q)
            RegClass.gpr32)
          s
          d
          (new_value op Width.narrow d
            (s.places d)
            (s.places p)
            (second Width.narrow s.places d p q))
          (new_flags op Width.narrow s.flags (s.places p) (second Width.narrow s.places d p q))
  unfolding rrr_codes add_instruction construct set_operand post_write set_reg_operand
  rrr32 (Place.hardware i) (Place.hardware j) (Place.hardware k) s mov ne a = (
    plain Code.mov_r32_rm32 (OpKind.register (Register.r32 i)) (OpKind.register (Register.r32 j))
        ∷ plain codes.r32_rm32 (OpKind.register (Register.r32 i)) (OpKind.register (Register.r32 k))
        ∷ [],
    _,
    simp (acc.constructs_all, acc.accepts_all, append_assoc),
    rw (mov.width, mov.result, mov.flags, ops.r32.width, ops.r32.result, ops.r32.flags)
        (simp (==_refl, mod_mod)),
    twice-Leaves s.places (Place.hardware i) (low32 (s.places (Place.hardware j))) _,
    refl,
  )
  rrr32 (Place.hardware i) (Place.hardware j) (Place.slot k) s mov ne a = (
    plain Code.mov_r32_rm32 (OpKind.register (Register.r32 i)) (OpKind.register (Register.r32 j))
        ∷ with_slot k codes.r32_rm32 (OpKind.register (Register.r32 i)) OpKind.memory
        ∷ [],
    _,
    simp (acc.constructs_all, acc.accepts_all, append_assoc),
    rw (mov.width, mov.result, mov.flags, ops.r32.width, ops.r32.result, ops.r32.flags)
        (simp (==_refl, mod_mod)),
    twice-Leaves s.places (Place.hardware i) (low32 (s.places (Place.hardware j))) _,
    refl,
  )
  rrr32 (Place.hardware i) (Place.slot j) (Place.hardware k) s mov ne a = (
    with_slot j Code.mov_r32_rm32 (OpKind.register (Register.r32 i)) OpKind.memory
        ∷ plain codes.r32_rm32 (OpKind.register (Register.r32 i)) (OpKind.register (Register.r32 k))
        ∷ [],
    _,
    simp (acc.constructs_all, acc.accepts_all, append_assoc),
    rw (mov.width, mov.result, mov.flags, ops.r32.width, ops.r32.result, ops.r32.flags)
        (simp (==_refl, mod_mod)),
    twice-Leaves s.places (Place.hardware i) (low32 (s.places (Place.slot j))) _,
    refl,
  )
  rrr32 (Place.hardware i) (Place.slot j) (Place.slot k) s mov ne a = (
    with_slot j Code.mov_r32_rm32 (OpKind.register (Register.r32 i)) OpKind.memory
        ∷ with_slot k codes.r32_rm32 (OpKind.register (Register.r32 i)) OpKind.memory
        ∷ [],
    _,
    simp (acc.constructs_all, acc.accepts_all, append_assoc),
    rw (mov.width, mov.result, mov.flags, ops.r32.width, ops.r32.result, ops.r32.flags)
        (simp (==_refl, mod_mod)),
    twice-Leaves s.places (Place.hardware i) (low32 (s.places (Place.slot j))) _,
    refl,
  )
  rrr32 (Place.slot i) (Place.hardware j) (Place.hardware k) s mov ne a = (
    plain Code.mov_r32_rm32 (OpKind.register eax) (OpKind.register (Register.r32 j))
        ∷ plain codes.r32_rm32 (OpKind.register eax) (OpKind.register (Register.r32 k))
        ∷ store_slot i eax
        ∷ [],
    _,
    simp (acc.constructs_all, acc.accepts_all, append_assoc),
    rw (mov.width, mov.result, mov.flags, ops.r32.width, ops.r32.result, ops.r32.flags)
        (simp (not_scratch k ne, mod_mod)),
    stored-Leaves s.places (Place.slot i) (low32 (s.places (Place.hardware j)))
        (low32 (
          op.result Width.narrow (low32 (s.places (Place.hardware j)))
            (low32 (s.places (Place.hardware k)))))
        _,
    refl,
  )
  rrr32 (Place.slot i) (Place.hardware j) (Place.slot k) s mov ne a = (
    plain Code.mov_r32_rm32 (OpKind.register eax) (OpKind.register (Register.r32 j))
        ∷ with_slot k codes.r32_rm32 (OpKind.register eax) OpKind.memory
        ∷ store_slot i eax
        ∷ [],
    _,
    simp (acc.constructs_all, acc.accepts_all, append_assoc),
    rw (mov.width, mov.result, mov.flags, ops.r32.width, ops.r32.result, ops.r32.flags)
        (simp (mod_mod)),
    stored-Leaves s.places (Place.slot i) (low32 (s.places (Place.hardware j)))
        (low32 (
          op.result Width.narrow (low32 (s.places (Place.hardware j)))
            (low32 (s.places (Place.slot k)))))
        _,
    refl,
  )
  rrr32 (Place.slot i) (Place.slot j) (Place.hardware k) s mov ne a = (
    with_slot j Code.mov_r32_rm32 (OpKind.register eax) OpKind.memory
        ∷ plain codes.r32_rm32 (OpKind.register eax) (OpKind.register (Register.r32 k))
        ∷ store_slot i eax
        ∷ [],
    _,
    simp (acc.constructs_all, acc.accepts_all, append_assoc),
    rw (mov.width, mov.result, mov.flags, ops.r32.width, ops.r32.result, ops.r32.flags)
        (simp (not_scratch k ne, mod_mod)),
    stored-Leaves s.places (Place.slot i) (low32 (s.places (Place.slot j)))
        (low32 (
          op.result Width.narrow (low32 (s.places (Place.slot j)))
            (low32 (s.places (Place.hardware k)))))
        _,
    refl,
  )
  rrr32 (Place.slot i) (Place.slot j) (Place.slot k) s mov ne a = (
    with_slot j Code.mov_r32_rm32 (OpKind.register eax) OpKind.memory
        ∷ with_slot k codes.r32_rm32 (OpKind.register eax) OpKind.memory
        ∷ store_slot i eax
        ∷ [],
    _,
    simp (acc.constructs_all, acc.accepts_all, append_assoc),
    rw (mov.width, mov.result, mov.flags, ops.r32.width, ops.r32.result, ops.r32.flags)
        (simp (mod_mod)),
    stored-Leaves s.places (Place.slot i) (low32 (s.places (Place.slot j)))
        (low32 (
          op.result Width.narrow (low32 (s.places (Place.slot j)))
            (low32 (s.places (Place.slot k)))))
        _,
    refl,
  )
