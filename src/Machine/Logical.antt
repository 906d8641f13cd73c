-- ===== src/Machine/Logical.antt =====
-- AND, ORR, EOR and SUB between X registers, from the AArch64 instruction to the places.
use xob.Base.{
  ap, zero, suc, ◌+◌, ◌*◌, ◌/◌, ◌%◌, Bool, ◌&&◌, ◌||◌, ◌==◌, if◌then◌else◌, Option, some, ℕ, ◌≤◌,
  ◌≡◌, ◌≢◌, true, none, [], ◌∷◌, refl, arith, not, check_below, check_below-at,
}
use xob.Vendor.{Vendor}
use xob.Vendor.Laws.{ArmLaws, RegisterLaws}
use xob.Vendor.Bad64
use xob.Vendor.Bad64.{Reg, Op}
use xob.Register.{RegClass, NativeRegClass}
use xob.Register.Allocation.{Place, place_eq, place_eq_iff, place_of, at_place, translate-place_of}
use xob.Arith.Operands.{operand_reg}
use xob.Arith.Logical.{translate_logical}
use xob.Arith.Rrr.{make_rrr}
use xob.InstrUtils.Codes.{OpRrCodes, and_rr_codes, or_rr_codes, xor_rr_codes}
use xob.Arith
use xob.Arith.{compile_op, handled}
use xob.Assembler.{Assembler, Asm}
use xob.Machine.{
  State, Isa, Width, Operation, bits, Accepting, Computes, Compiles, Denotes, scratch_place,
}
use xob.Machine.Rrr.{MovesOperand}
use xob.Machine.MakeRrr.{Undisturbed, make_rrr-Computes}

-- `op Xd, Xm, Xn` at an address.
abbrev pub three_registers : Op → ℕ → ℕ → ℕ → ℕ → Bad64.Instruction
three_registers op address d m n = record {
  op = op;
  operands =
      Bad64.Operand.reg (Reg.x_reg d) none
      ∷ Bad64.Operand.reg (Reg.x_reg m) none
      ∷ Bad64.Operand.reg (Reg.x_reg n) none
      ∷ [];
  address = address;
}

module _ ⦃v : Vendor⦄ (regs : RegisterLaws v) (laws : ArmLaws v) where
  logical_is_rrr :
      (codes : OpRrCodes) (op : Op) (address d m n : ℕ) (a : Assembler)
      → d ≤ 30
      → m ≤ 30
      → n ≤ 30
      → translate_logical (three_registers op address d m n) codes a
        ≡ make_rrr codes
            (at_place NativeRegClass.gpr64 (place_of d))
            (at_place NativeRegClass.gpr64 (place_of m))
            (at_place NativeRegClass.gpr64 (place_of n))
            RegClass.gpr64
            a
  unfolding translate_logical operand_reg make_rrr
  logical_is_rrr codes op address d m n a hd hm hn =
      let (ed, _) = translate-place_of regs laws d none hd in
      let (em, _) = translate-place_of regs laws m none hm in
      let (en, _) = translate-place_of regs laws n none hn in rw (ed, em, en)

scratch_test : check_below (λ n. not (place_eq scratch_place (place_of n))) 31 ≡ true
unfolding check_below
scratch_test = refl

-- No register is allocated to the scratch register.
pub place_of-ne-scratch : (n : ℕ) → n ≤ 30 → scratch_place ≢ place_of n
place_of-ne-scratch n h e = ground (
  arith,
  place_eq_iff scratch_place (place_of n),
  check_below-at (λ (k : ℕ). not (place_eq scratch_place (place_of k))) 31 n scratch_test,
)

-- A bitwise operation on the last `n` bits.
abbrev pub bitwise : (Bool → Bool → Bool) → ℕ → ℕ → ℕ → ℕ
bitwise g zero a b = 0
bitwise g (suc n) a b =
    (if g (a % 2 == 1) (b % 2 == 1) then 1 else 0) + 2 * bitwise g n (a / 2) (b / 2)

abbrev pub differs : Bool → Bool → Bool
differs a b = if a then not b else b

-- The codes for AND, ORR and EOR, and what the operations do to bits.
abbrev pub logical : Op → Option (OpRrCodes × (Bool → Bool → Bool))
logical Op.and = some (and_rr_codes, λ a b. a && b)
logical Op.orr = some (or_rr_codes, λ a b. a || b)
logical Op.eor = some (xor_rr_codes, differs)
logical _ = none

-- The operation of a processor on bits, with the flags that it leaves.
abbrev pub on_bits : (Bool → Bool → Bool) → (Width → ℕ → ℕ → ℕ → ℕ) → Operation
on_bits g flags = record { result = λ w. bitwise g (bits w); flags = flags }

pub handled-Compiles :
    (isa : Isa) (m : Asm (Unit {0})) (s : State) (p : Place) (n flags : ℕ)
    → Computes isa m s p n flags
    → Compiles isa (handled m) s p n flags
handled-Compiles isa m s p n flags computes a =
    let (cs, s', emits, runs, leaves, kept) = computes a in
    (cs, s', rw emits refl, runs, leaves, kept)

abbrev codes_or : OpRrCodes → Option (OpRrCodes × (Bool → Bool → Bool)) → OpRrCodes
codes_or codes none = codes
codes_or codes (some (c, g)) = c

same_codes :
    (c codes : OpRrCodes) (g g' : Bool → Bool → Bool)
    → ◌≡◌ {A = Option (OpRrCodes × (Bool → Bool → Bool))} (some (c, g)) (some (codes, g'))
    → c ≡ codes
same_codes c codes g g' e = ap (codes_or c) e

compile_op-logical :
    ⦃v : Vendor⦄ (op : Op) (codes : OpRrCodes) (g : Bool → Bool → Bool) (i : Bad64.Instruction)
    → logical op ≡ some (codes, g)
    → compile_op op i ≡ handled (translate_logical i codes)
unfolding compile_op
compile_op-logical Op.and codes g i e =
    ap (λ (c : OpRrCodes). handled (translate_logical i c)) (same_codes and_rr_codes codes _ g e)
compile_op-logical Op.orr codes g i e =
    ap (λ (c : OpRrCodes). handled (translate_logical i c)) (same_codes or_rr_codes codes _ g e)
compile_op-logical Op.eor codes g i e =
    ap (λ (c : OpRrCodes). handled (translate_logical i c)) (same_codes xor_rr_codes codes _ g e)
compile_op-logical _ codes g i e = cc

module _ ⦃v : Vendor⦄ (acc : Accepting v) (regs : RegisterLaws v) (laws : ArmLaws v) {isa : Isa}
    (mov : MovesOperand isa) where
  -- Where iced refuses nothing, and the codes of the x86 operation do to their operands, bit by bit, what AND,
  -- ORR or EOR does: the code for the instruction on Xd, Xm and Xn leaves the bitwise result of
  -- the places of Xm and Xn in the place of Xd, and changes no other place but the scratch
  -- register, unless Xd is in a hardware register, shares its place with Xn, and does not with Xm. The
  -- flags are not kept: they are those that the x86 operation leaves.
  pub compile_instr-logical :
      (op : Op) (codes : OpRrCodes) (g : Bool → Bool → Bool) (flags : Width → ℕ → ℕ → ℕ → ℕ)
      (address d m n : ℕ) (s : State)
      → logical op ≡ some (codes, g)
      → Denotes isa codes (on_bits g flags)
      → d ≤ 30
      → m ≤ 30
      → n ≤ 30
      → Undisturbed (place_of d) (place_of m) (place_of n)
      → Compiles isa
          (Arith.compile_instr (three_registers op address d m n))
          s
          (place_of d)
          (bitwise g 64 (s.places (place_of m)) (s.places (place_of n)))
          (flags Width.wide s.flags (s.places (place_of m)) (s.places (place_of n)))
  unfolding Arith.compile_instr
  compile_instr-logical op codes g flags address d m n s known ops hd hm hn u =
      rw (compile_op-logical op codes g (three_registers op address d m n) known) (
        handled-Compiles isa _ s (place_of d) _ _ (λ a.
          rw (logical_is_rrr regs laws codes op address d m n a hd hm hn) (
            make_rrr-Computes acc ops mov RegClass.gpr64 (place_of d) (place_of m) (place_of n) s
              refl (place_of-ne-scratch n hn) u a)))
