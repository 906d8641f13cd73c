-- ===== src/Tests/Emitters.antt =====
-- The emitters on concrete places.
use xob.Base.{
  ℕ, ◌+◌, ◌^◌, ◌<◌, ◌≡◌, ◌↔◌, ◌⊎◌, inl, inr, refl, arith, [], ◌∷◌, ◌-◌, ◌%◌, ◌==◌, ◌&&◌, Bool,
  false, Option, some, none, if◌then◌else◌,
}
use xob.Vendor.Bad64.{Op, Reg}
use xob.Vendor.Iced.{Code, OpKind, Call, Mnemonic, Arg, rax}
use xob.Words.{sext32}
use xob.Arith.Movk.{movk, on_place, kept, field, translate_movk-low, translate_movk-high}
use xob.Arith.Moves.{translate_mov, translate_movk}
use xob.Machine.Mov.{mov_registers, translate_mov-Computes}
use xob.Machine.MovZero.{mov_xzr, translate_mov-zero}
use xob.Machine.Sub.{add_sub_codes, on_words, compile_instr-arithmetic}
use xob.Compiler.Labels.{no_calls}
use xob.Machine.{Emits}
use xob.Register.{RegClass}
use xob.Register.Allocation.{Place, place_of}
use xob.InstrUtils.{make_rr}
use xob.InstrUtils.Codes.{and_rr_codes, mov_rr_codes, xor_rr_codes}
use xob.Arith.Rrr.{make_rrr}
use xob.Arith
use xob.Machine.{State, Isa, Width, copying, bits, Computes, Compiles, Denotes, translation}
use xob.Machine.Rr.{make_rr-Computes}
use xob.Machine.Rrr.{MovesOperand}
use xob.Machine.MakeRrr.{make_rrr-Computes, make_rrr-clobbers}
use xob.Machine.Logical.{three_registers, bitwise, differs, on_bits, compile_instr-logical}
use xob.Tests.Setup.{vendor, accepting, arm_laws, register_laws}

abbrev narrow_codes : Code → Width
narrow_codes Code.and_r32_rm32 = Width.narrow
narrow_codes Code.and_rm32_r32 = Width.narrow
narrow_codes Code.xor_r32_rm32 = Width.narrow
narrow_codes Code.xor_rm32_r32 = Width.narrow
narrow_codes Code.sub_r32_rm32 = Width.narrow
narrow_codes Code.sub_rm32_r32 = Width.narrow
narrow_codes Code.mov_r32_rm32 = Width.narrow
narrow_codes Code.mov_rm32_r32 = Width.narrow
narrow_codes _ = Width.wide

-- The zero flag of a result.
abbrev zf : (ℕ → ℕ → ℕ) → ℕ → ℕ → ℕ → ℕ
zf f before a b = if f a b == 0 then 64 else 0

abbrev both : Bool → Bool → Bool
both a b = a && b

abbrev minus : ℕ → ℕ → ℕ → ℕ
minus n a b = (a + (2 ^ n - b)) % 2 ^ n

abbrev operation : Code → Option (ℕ → ℕ → ℕ)
operation Code.and_r32_rm32 = some (bitwise both 32)
operation Code.and_rm32_r32 = some (bitwise both 32)
operation Code.and_r64_rm64 = some (bitwise both 64)
operation Code.and_rm64_r64 = some (bitwise both 64)
operation Code.xor_r32_rm32 = some (bitwise differs 32)
operation Code.xor_rm32_r32 = some (bitwise differs 32)
operation Code.xor_r64_rm64 = some (bitwise differs 64)
operation Code.xor_rm64_r64 = some (bitwise differs 64)
operation Code.sub_r32_rm32 = some (minus 32)
operation Code.sub_rm32_r32 = some (minus 32)
operation Code.sub_r64_rm64 = some (minus 64)
operation Code.sub_rm64_r64 = some (minus 64)
operation _ = none

abbrev result_of : Option (ℕ → ℕ → ℕ) → ℕ → ℕ → ℕ
result_of none a b = b
result_of (some f) a b = f a b

abbrev flags_of : Option (ℕ → ℕ → ℕ) → ℕ → ℕ → ℕ → ℕ
flags_of none before a b = before
flags_of (some f) before a b = zf f before a b

-- AND, XOR and SUB with the zero flag; the other codes are moves.
abbrev isa : Isa
isa = record {
  width = narrow_codes;
  result = λ c. result_of (operation c);
  flags = λ c. flags_of (operation c);
}

abbrev and_flags : Width → ℕ → ℕ → ℕ → ℕ
and_flags w = zf (bitwise both (bits w))

abbrev xor_flags : Width → ℕ → ℕ → ℕ → ℕ
xor_flags w = zf (bitwise differs (bits w))

abbrev sub_flags : Width → ℕ → ℕ → ℕ → ℕ
sub_flags w = zf (minus (bits w))

ands : Denotes isa and_rr_codes (on_bits both and_flags)
ands = record {
  r32 = record { width = refl; result = refl; flags = refl };
  rm32 = record { width = refl; result = refl; flags = refl };
  r64 = record { width = refl; result = refl; flags = refl };
  rm64 = record { width = refl; result = refl; flags = refl };
}

xors : Denotes isa xor_rr_codes (on_bits differs xor_flags)
xors = record {
  r32 = record { width = refl; result = refl; flags = refl };
  rm32 = record { width = refl; result = refl; flags = refl };
  r64 = record { width = refl; result = refl; flags = refl };
  rm64 = record { width = refl; result = refl; flags = refl };
}

subs : Denotes isa (add_sub_codes Op.sub) (on_words minus sub_flags)
subs = record {
  r32 = record { width = refl; result = refl; flags = refl };
  rm32 = record { width = refl; result = refl; flags = refl };
  r64 = record { width = refl; result = refl; flags = refl };
  rm64 = record { width = refl; result = refl; flags = refl };
}

copies : Denotes isa mov_rr_codes copying
copies = record {
  r32 = record { width = refl; result = refl; flags = refl };
  rm32 = record { width = refl; result = refl; flags = refl };
  r64 = record { width = refl; result = refl; flags = refl };
  rm64 = record { width = refl; result = refl; flags = refl };
}

moves : MovesOperand isa
moves = record { r64 = copies.r64; r32 = copies.r32 }

-- Hardware register n holds n, the slot at n holds 2^32 + n.
abbrev state : State
state = record {
  places = λ p. elim p [ Place.hardware n ↦ n | Place.slot n ↦ 2 ^ 32 + n ];
  flags = 1;
}

-- `and [slot 48], [slot 56]` on 32 bits: the upper half stays.
make_rr-Computes_example :
    Computes isa
      (make_rr ⦃v = vendor⦄ and_rr_codes RegClass.gpr32
        (translation RegClass.gpr32 (Place.slot 48))
        (translation RegClass.gpr32 (Place.slot 56)))
      state
      (Place.slot 48)
      4294967344
      0
make_rr-Computes_example =
    make_rr-Computes ⦃v = vendor⦄ accepting ands RegClass.gpr32 (Place.slot 48) (Place.slot 56)
      state refl

make_rrr-Computes_example :
    Computes isa
      (make_rrr ⦃v = vendor⦄ and_rr_codes
        (translation RegClass.gpr32 (Place.slot 48))
        (translation RegClass.gpr32 (Place.hardware 7))
        (translation RegClass.gpr32 (Place.slot 56))
        RegClass.gpr32)
      state
      (Place.slot 48)
      4294967296
      64
make_rrr-Computes_example =
    make_rrr-Computes ⦃v = vendor⦄ accepting ands moves RegClass.gpr32 (Place.slot 48)
      (Place.hardware 7) (Place.slot 56) state refl (λ e. cc) (inl refl)

-- `sub rdi, rsi, rdi` leaves 0.
make_rrr-clobbers_example :
    Computes isa
      (make_rrr ⦃v = vendor⦄
        (add_sub_codes Op.sub)
        (translation RegClass.gpr64 (Place.hardware 7))
        (translation RegClass.gpr64 (Place.hardware 6))
        (translation RegClass.gpr64 (Place.hardware 7))
        RegClass.gpr64)
      state
      (Place.hardware 7)
      0
      64
make_rrr-clobbers_example =
    make_rrr-clobbers ⦃v = vendor⦄ accepting subs moves RegClass.gpr64 7 (Place.hardware 6) state
      refl (λ e. ground arith)

-- `and x0, x1, x20`
compile_instr-logical_example :
    Compiles isa
      (Arith.compile_instr ⦃v = vendor⦄ (three_registers Op.and 4096 0 1 20))
      state
      (place_of 0)
      (bitwise both 64 (state.places (place_of 1)) (state.places (place_of 20)))
      (zf (bitwise both 64) 1 (state.places (place_of 1)) (state.places (place_of 20)))
compile_instr-logical_example =
    compile_instr-logical ⦃v = vendor⦄ accepting register_laws arm_laws moves Op.and and_rr_codes
      both and_flags 4096 0 1 20 state refl ands (omega arith) (omega arith) (omega arith)
      (inr (inl (λ e. ground arith)))

-- `mov x13, x6` and `mov w13, w6`, both through slots.
translate_mov-Computes_example :
    Computes isa
      (translate_mov ⦃v = vendor⦄ (mov_registers Reg.x_reg 4096 13 6))
      state
      (place_of 13)
      (2 ^ 32 + 48)
      1
    × Computes isa
        (translate_mov ⦃v = vendor⦄ (mov_registers Reg.w_reg 4096 13 6))
        state
        (place_of 13)
        (2 ^ 32 + 48)
        1
translate_mov-Computes_example =
    translate_mov-Computes ⦃v = vendor⦄ accepting register_laws arm_laws copies 4096 13 6 state
      (omega arith) (omega arith)

-- `sub x7, x0, x1`
compile_instr-arithmetic_example :
    Compiles isa
      (Arith.compile_instr ⦃v = vendor⦄ (three_registers Op.sub 4096 7 0 1))
      state
      (place_of 7)
      (minus 64 (state.places (place_of 0)) (state.places (place_of 1)))
      (zf (minus 64) 1 (state.places (place_of 0)) (state.places (place_of 1)))
compile_instr-arithmetic_example =
    compile_instr-arithmetic ⦃v = vendor⦄ accepting register_laws arm_laws moves Op.sub false minus
      sub_flags 4096 7 0 1 state refl subs (omega arith) (omega arith) (omega arith) (inl refl)

-- `mov x6, xzr`, in a slot, sets the zero flag.
translate_mov-zero_example :
    Computes isa (translate_mov ⦃v = vendor⦄ (mov_xzr 4096 6)) state (place_of 6) 0 64
translate_mov-zero_example =
    translate_mov-zero ⦃v = vendor⦄ accepting register_laws arm_laws xor_flags xors 4096 6 state
      (omega arith)

-- `movk x0, #65535, lsl #16`
translate_movk-low_example :
    (mask : ℕ) × (bits : ℕ) × Emits (translate_movk ⦃v = vendor⦄ (movk 4096 0 65535 1)) no_calls (
      on_place Code.and_rm64_imm32 (place_of 0) (OpKind.immediate mask)
      ∷ on_place Code.or_rm64_imm32 (place_of 0) (OpKind.immediate bits)
      ∷ [])
    × ((sext32 mask ≡ kept 1) ↔ (◌≡◌ {A = ℕ} 1 0))
    × ((sext32 bits ≡ field 65535 1) ↔ ((◌≡◌ {A = ℕ} 1 0) ⊎ (65535 < 2 ^ 15)))
translate_movk-low_example =
    translate_movk-low ⦃v = vendor⦄ accepting register_laws arm_laws 4096 0 65535 1 no_calls
      (omega arith) (omega arith) (omega arith)

-- `movk x6, #1, lsl #48`
translate_movk-high_example : Emits (translate_movk ⦃v = vendor⦄ (movk 4096 6 1 3)) no_calls (
    Call.asm Mnemonic.mov (Arg.reg rax ∷ Arg.imm (kept 3) ∷ [])
    ∷ on_place Code.and_rm64_r64 (place_of 6) (OpKind.register rax)
    ∷ Call.asm Mnemonic.mov (Arg.reg rax ∷ Arg.imm (field 1 3) ∷ [])
    ∷ on_place Code.or_rm64_r64 (place_of 6) (OpKind.register rax)
    ∷ [])
translate_movk-high_example =
    translate_movk-high ⦃v = vendor⦄ accepting register_laws arm_laws 4096 6 1 3 no_calls
      (omega arith) (omega arith) (omega arith) (omega arith)
