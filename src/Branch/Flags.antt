-- ===== src/Branch/Flags.antt =====
-- What the conditional jumps of src/runner/compiler/branch.rs and the conditional moves of
-- src/runner/compiler/arith.rs test, against the conditions of the AArch64 manual.
use xob.Base.{Bool, true, false, not, ◌&&◌, ◌||◌, ◌≡◌, arith, if◌then◌else◌}
use xob.Vendor.Bad64.{Condition}
use xob.Vendor.Iced.{Mnemonic, Code}
use xob.Branch.Conditions.{inverse_condition, jcc}
use xob.Arith.Compare.{cmov_codes}

-- CF, ZF, SF and OF of EFLAGS.
pub record Flags : Type 0 where
  pub carry : Bool
  pub zero : Bool
  pub sign : Bool
  pub overflow : Bool

-- N, Z, C and V.
pub record ArmFlags : Type 0 where
  pub n : Bool
  pub z : Bool
  pub c : Bool
  pub v : Bool

abbrev pub same : Bool → Bool → Bool
same true b = b
same false b = not b

-- The Intel manual's conditions of the jumps that `make_jcc` emits.
abbrev pub jump_taken : Mnemonic → Flags → Bool
jump_taken Mnemonic.je f = f.zero
jump_taken Mnemonic.jne f = not f.zero
jump_taken Mnemonic.jl f = not (same f.sign f.overflow)
jump_taken Mnemonic.jge f = same f.sign f.overflow
jump_taken Mnemonic.jg f = not f.zero && same f.sign f.overflow
jump_taken Mnemonic.jle f = f.zero || not (same f.sign f.overflow)
jump_taken Mnemonic.jnc f = not f.carry
jump_taken Mnemonic.jc f = f.carry
jump_taken Mnemonic.ja f = not f.carry && not f.zero
jump_taken Mnemonic.jbe f = f.carry || f.zero
jump_taken Mnemonic.jno f = not f.overflow
jump_taken Mnemonic.jo f = f.overflow
jump_taken Mnemonic.js f = f.sign
jump_taken Mnemonic.jns f = not f.sign
jump_taken Mnemonic.jmp f = true
jump_taken _ f = false

-- The same for the moves that `translate_csel` emits; a plain MOV always moves.
abbrev pub move_taken : Code → Flags → Bool
move_taken Code.cmove_r32_rm32 f = f.zero
move_taken Code.cmove_r64_rm64 f = f.zero
move_taken Code.cmovne_r32_rm32 f = not f.zero
move_taken Code.cmovne_r64_rm64 f = not f.zero
move_taken Code.cmovae_r32_rm32 f = not f.carry
move_taken Code.cmovae_r64_rm64 f = not f.carry
move_taken Code.cmovb_r32_rm32 f = f.carry
move_taken Code.cmovb_r64_rm64 f = f.carry
move_taken Code.cmovs_r32_rm32 f = f.sign
move_taken Code.cmovs_r64_rm64 f = f.sign
move_taken Code.cmovns_r32_rm32 f = not f.sign
move_taken Code.cmovns_r64_rm64 f = not f.sign
move_taken Code.cmovo_r32_rm32 f = f.overflow
move_taken Code.cmovo_r64_rm64 f = f.overflow
move_taken Code.cmovno_r32_rm32 f = not f.overflow
move_taken Code.cmovno_r64_rm64 f = not f.overflow
move_taken Code.cmova_r32_rm32 f = not f.carry && not f.zero
move_taken Code.cmova_r64_rm64 f = not f.carry && not f.zero
move_taken Code.cmovbe_r32_rm32 f = f.carry || f.zero
move_taken Code.cmovbe_r64_rm64 f = f.carry || f.zero
move_taken Code.cmovge_r32_rm32 f = same f.sign f.overflow
move_taken Code.cmovge_r64_rm64 f = same f.sign f.overflow
move_taken Code.cmovl_r32_rm32 f = not (same f.sign f.overflow)
move_taken Code.cmovl_r64_rm64 f = not (same f.sign f.overflow)
move_taken Code.cmovg_r32_rm32 f = not f.zero && same f.sign f.overflow
move_taken Code.cmovg_r64_rm64 f = not f.zero && same f.sign f.overflow
move_taken Code.cmovle_r32_rm32 f = f.zero || not (same f.sign f.overflow)
move_taken Code.cmovle_r64_rm64 f = f.zero || not (same f.sign f.overflow)
move_taken Code.mov_r32_rm32 f = true
move_taken Code.mov_r64_rm64 f = true
move_taken _ f = false

-- The AArch64 manual's `ConditionHolds`.
abbrev pub holds : Condition → ArmFlags → Bool
holds Condition.eq f = f.z
holds Condition.ne f = not f.z
holds Condition.cs f = f.c
holds Condition.cc f = not f.c
holds Condition.mi f = f.n
holds Condition.pl f = not f.n
holds Condition.vs f = f.v
holds Condition.vc f = not f.v
holds Condition.hi f = f.c && not f.z
holds Condition.ls f = not (f.c && not f.z)
holds Condition.ge f = same f.n f.v
holds Condition.lt f = not (same f.n f.v)
holds Condition.gt f = not f.z && same f.n f.v
holds Condition.le f = not (not f.z && same f.n f.v)
holds Condition.al f = true
holds Condition.nv f = true

-- The flags after the x86 compare whose AArch64 counterpart leaves `f`: CF is the borrow, C is its
-- complement.
abbrev pub of_compare : ArmFlags → Flags
of_compare f = record { carry = not f.c; zero = f.z; sign = f.n; overflow = f.v }

-- The conditions that test C alone, and those that always hold.
abbrev pub is_carry : Condition → Bool
is_carry Condition.cs = true
is_carry Condition.cc = true
is_carry _ = false

abbrev pub is_always : Condition → Bool
is_always Condition.al = true
is_always Condition.nv = true
is_always _ = false

-- The inverse of a condition jumps exactly when the condition does not, except for AL and NV, where
-- both jump; and the inverse of the inverse is the condition.
pub jump_taken-inverse :
    (c : Condition) (f : Flags)
    → (jump_taken (jcc (inverse_condition c)) f ≡ (is_always c || not (jump_taken (jcc c) f)))
      × (inverse_condition (inverse_condition c) ≡ c)
unfolding inverse_condition jcc
jump_taken-inverse c f = ground arith

-- After a compare, the jump for a condition is taken exactly when the condition holds, except for CS
-- and CC, where it is taken exactly when the condition fails.
pub jcc_after_compare :
    (c : Condition) (f : ArmFlags)
    → jump_taken (jcc c) (of_compare f) ≡ (if is_carry c then not (holds c f) else holds c f)
unfolding jcc
jcc_after_compare c f = ground arith

-- After a compare, the conditional move for a condition, in either class, moves exactly when the
-- condition holds.
pub cmov_after_compare :
    (c : Condition) (f : ArmFlags)
    → (move_taken (cmov_codes c).0 (of_compare f) ≡ holds c f)
      × (move_taken (cmov_codes c).1 (of_compare f) ≡ holds c f)
unfolding cmov_codes
cmov_after_compare c f = ground arith
