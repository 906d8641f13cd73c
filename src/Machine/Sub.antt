-- ===== src/Machine/Sub.antt =====
-- SUB and SUBS between X registers, and ADDS, from the AArch64 instruction to the places.
use xob.Base.{
  ℕ, ◌+◌, ◌-◌, ◌%◌, ◌^◌, ap, sym, Option, some, ◌≤◌, ◌≡◌, Bool, true, false, none, if◌then◌else◌,
  refl, Bool-cases, inl, inr, ◌||◌,
}
use xob.Vendor.{Vendor}
use xob.Vendor.Laws.{ArmLaws, RegisterLaws}
use xob.Vendor.Bad64.{Op}
use xob.Register.{RegClass, NativeRegClass}
use xob.Register.Allocation.{place_of, at_place, translate-place_of}
use xob.Arith.Operands.{operand_reg}
use xob.Arith.AddSub.{is_sub, lea_for, translate_add_sub}
use xob.Arith.Rrr.{make_rrr}
use xob.InstrUtils.Codes.{OpRrCodes, add_rr_codes, sub_rr_codes}
use xob.Assembler.{Assembler, construct}
use xob.Arith
use xob.Arith.{compile_op, handled}
use xob.Vendor.Bad64
use xob.Machine.{State, Isa, Width, Operation, bits, Accepting, Compiles, Denotes}
use xob.Machine.Rrr.{MovesOperand}
use xob.Machine.MakeRrr.{Undisturbed, make_rrr-Computes}
use xob.Machine.Logical.{three_registers, place_of-ne-scratch, handled-Compiles}

or_true : (b : Bool) → (b || true) ≡ true
or_true true = refl
or_true false = refl

-- The instructions that do not go through LEA: subtractions, and additions that set the flags.
abbrev pub by_rrr : Op → Bool → Bool
by_rrr op set_flags = if is_sub op then true else set_flags

abbrev pub add_sub_codes : Op → OpRrCodes
add_sub_codes op = if is_sub op then sub_rr_codes else add_rr_codes

module _ ⦃v : Vendor⦄ (acc : Accepting v) (regs : RegisterLaws v) (laws : ArmLaws v) where
  add_sub_is_rrr :
      (op : Op) (set_flags : Bool) (address d m n : ℕ) (a : Assembler)
      → d ≤ 30
      → m ≤ 30
      → n ≤ 30
      → by_rrr op set_flags ≡ true
      → translate_add_sub (three_registers op address d m n) set_flags a
        ≡ make_rrr
            (add_sub_codes op)
            (at_place NativeRegClass.gpr64 (place_of d))
            (at_place NativeRegClass.gpr64 (place_of m))
            (at_place NativeRegClass.gpr64 (place_of n))
            RegClass.gpr64
            a
  unfolding translate_add_sub operand_reg lea_for construct
  add_sub_is_rrr op set_flags address d m n a hd hm hn e =
      let (ed, _) = translate-place_of regs laws d none hd in
      let (em, _) = translate-place_of regs laws m none hm in
      let (en, _) = translate-place_of regs laws n none hn in
      elim (Bool-cases (is_sub op)) [
        | inl sub ↦ rw (ed, em, acc.constructs_all, en, sub) refl
        | inr add ↦
            (let flags : set_flags ≡ true = rw add at e in
              rw (ed, em, acc.constructs_all, en, add, flags, or_true _) refl)
      ]

-- SUB, SUBS and ADDS, whether they set the flags, and what they compute.
abbrev pub arithmetic : Op → Option (Bool × (ℕ → ℕ → ℕ → ℕ))
arithmetic Op.sub = some (false, λ n a b. (a + (2 ^ n - b)) % 2 ^ n)
arithmetic Op.subs = some (true, λ n a b. (a + (2 ^ n - b)) % 2 ^ n)
arithmetic Op.adds = some (true, λ n a b. (a + b) % 2 ^ n)
arithmetic _ = none

-- The operation of a processor on words, with the flags that it leaves.
abbrev pub on_words : (ℕ → ℕ → ℕ → ℕ) → (Width → ℕ → ℕ → ℕ → ℕ) → Operation
on_words f flags = record { result = λ w. f (bits w); flags = flags }

abbrev flag_or : Bool → Option (Bool × (ℕ → ℕ → ℕ → ℕ)) → Bool
flag_or b none = b
flag_or b (some (c, f)) = c

same_flag :
    (c b : Bool) (f f' : ℕ → ℕ → ℕ → ℕ)
    → ◌≡◌ {A = Option (Bool × (ℕ → ℕ → ℕ → ℕ))} (some (c, f)) (some (b, f'))
    → c ≡ b
same_flag c b f f' e = ap (flag_or c) e

compile_op-arithmetic :
    ⦃v : Vendor⦄ (op : Op) (set_flags : Bool) (f : ℕ → ℕ → ℕ → ℕ) (i : Bad64.Instruction)
    → arithmetic op ≡ some (set_flags, f)
    → (compile_op op i ≡ handled (translate_add_sub i set_flags)) × (by_rrr op set_flags ≡ true)
unfolding compile_op
compile_op-arithmetic Op.sub b f i e =
    (ap (λ (c : Bool). handled (translate_add_sub i c)) (same_flag false b _ f e), refl)
compile_op-arithmetic Op.subs b f i e =
    (ap (λ (c : Bool). handled (translate_add_sub i c)) (same_flag true b _ f e), refl)
compile_op-arithmetic Op.adds b f i e = (
  ap (λ (c : Bool). handled (translate_add_sub i c)) (same_flag true b _ f e),
  sym (same_flag true b _ f e),
)
compile_op-arithmetic _ b f i e = cc

module _ ⦃v : Vendor⦄ (acc : Accepting v) (regs : RegisterLaws v) (laws : ArmLaws v) {isa : Isa}
    (mov : MovesOperand isa) where
  -- Where iced refuses nothing, and the codes of the x86 operation subtract, or add for ADDS, modulo the size of a
  -- word: the code for SUB, SUBS or ADDS of Xd, Xm and Xn leaves the difference of the places of Xm
  -- and Xn, or their sum, modulo 2^64 in the place of Xd, and changes no other place but the
  -- scratch register, unless Xd is in a hardware register, shares its place with Xn, and does not with
  -- Xm. In each case, for SUB as for SUBS, the flags are those that the x86 operation leaves.
  pub compile_instr-arithmetic :
      (op : Op) (set_flags : Bool) (f : ℕ → ℕ → ℕ → ℕ) (flags : Width → ℕ → ℕ → ℕ → ℕ)
      (address d m n : ℕ) (s : State)
      → arithmetic op ≡ some (set_flags, f)
      → Denotes isa (add_sub_codes op) (on_words f flags)
      → d ≤ 30
      → m ≤ 30
      → n ≤ 30
      → Undisturbed (place_of d) (place_of m) (place_of n)
      → Compiles isa
          (Arith.compile_instr (three_registers op address d m n))
          s
          (place_of d)
          (f 64 (s.places (place_of m)) (s.places (place_of n)))
          (flags Width.wide s.flags (s.places (place_of m)) (s.places (place_of n)))
  unfolding Arith.compile_instr
  compile_instr-arithmetic op set_flags f flags address d m n s known ops hd hm hn u =
      let (compiles, rrr) =
        compile_op-arithmetic op set_flags f (three_registers op address d m n) known in
      rw compiles (
        handled-Compiles isa _ s (place_of d) _ _ (λ a.
          rw (add_sub_is_rrr acc regs laws op set_flags address d m n a hd hm hn rrr) (
            make_rrr-Computes acc ops mov RegClass.gpr64 (place_of d) (place_of m) (place_of n) s
              refl (place_of-ne-scratch n hn) u a)))
