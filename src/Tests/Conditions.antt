-- ===== src/Tests/Conditions.antt =====
-- Conditions on concrete flags.
use xob.Base.{true, false, not, ◌||◌, ◌≡◌, if◌then◌else◌}
use xob.Vendor.Bad64.{Condition}
use xob.Branch.Conditions.{inverse_condition, jcc}
use xob.Arith.Compare.{cmov_codes}
use xob.Branch.Flags.{
  Flags, ArmFlags, is_always, is_carry, holds, of_compare, jump_taken, move_taken,
  jump_taken-inverse, jcc_after_compare, cmov_after_compare,
}

abbrev carry_set : Flags
carry_set = record { carry = true; zero = false; sign = false; overflow = false }

-- The flags of `cmp 1, 2`.
abbrev less : ArmFlags
less = record { n = true; z = false; c = false; v = false }

jump_taken-inverse_example :
    (jump_taken (jcc (inverse_condition Condition.hi)) carry_set
      ≡ (is_always Condition.hi || not (jump_taken (jcc Condition.hi) carry_set)))
    × (inverse_condition (inverse_condition Condition.hi) ≡ Condition.hi)
jump_taken-inverse_example = jump_taken-inverse Condition.hi carry_set

jcc_after_compare_example :
    jump_taken (jcc Condition.cc) (of_compare less)
    ≡ (if is_carry Condition.cc then not (holds Condition.cc less) else holds Condition.cc less)
jcc_after_compare_example = jcc_after_compare Condition.cc less

cmov_after_compare_example :
    (move_taken (cmov_codes Condition.cc).0 (of_compare less) ≡ holds Condition.cc less)
    × (move_taken (cmov_codes Condition.cc).1 (of_compare less) ≡ holds Condition.cc less)
cmov_after_compare_example = cmov_after_compare Condition.cc less
