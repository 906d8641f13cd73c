-- ===== src/Words.antt =====
-- Machine words as bit patterns: the casts and shifts of the source.
mod Masks
pub use Masks.{power-add, pow_step, keep_high}
use xob.Base.{ℕ, ◌+◌, ◌-◌, ◌*◌, ◌/◌, ◌%◌, ◌^◌, Bool, ltb, ◌==◌, if◌then◌else◌}
use xob.Outcome.{Outcome, ok, panic}

-- `as i32`, `as u32`
abbrev pub low32 : ℕ → ℕ
low32 n = n % 2 ^ 32

-- An `i32` as an `i64`: what the processor does with a 32-bit immediate of a 64-bit instruction.
abbrev pub sext32 : ℕ → ℕ
sext32 n = if ltb n (2 ^ 31) then n else n + (2 ^ 64 - 2 ^ 32)

-- `!n` on `u64`
abbrev pub not64 : ℕ → ℕ
not64 n = 2 ^ 64 - 1 - n

-- `n << k` on `u64`, which panics from 64 on.
abbrev pub shl64 : ℕ → ℕ → Outcome ℕ
shl64 n k = if ltb k 64 then ok (n * 2 ^ k % 2 ^ 64) else panic

-- `n & (1 << k) != 0`
abbrev pub bit_set : ℕ → ℕ → Bool
bit_set n k = n / 2 ^ k % 2 == 1
