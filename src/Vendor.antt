-- ===== src/Vendor.antt =====
-- The third-party crates, as far as the compiler uses them. Their data is named in the children;
-- what they compute is a parameter, `Vendor`, and the documented facts that some properties rely
-- on are the records of `Vendor.Laws`.
pub mod Bad64
pub mod Iced
pub mod Laws
use Iced.{Register, Call, Instruction}
use Bad64.{Reg}
use xob.Base.{ℕ, Bool, Option, List}

-- The enum discriminants (`as u32`, `from_u32`, arithmetic on `Register`), the register widths, and
-- whether iced accepts an instruction or a call after the calls made so far.
pub record Vendor : Type 0 where
  pub reg_number : Reg → ℕ
  pub reg_from : ℕ → Option Reg
  pub register_number : Register → ℕ
  pub register_from : ℕ → Option Register
  pub full_register : Register → Register
  pub full_register32 : Register → Register
  pub constructs : Instruction → Bool
  pub accepts : List Call → Call → Bool
