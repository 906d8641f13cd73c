-- ===== src/Tests.antt =====
-- The theorems at concrete inputs.
pub mod Setup
mod Loading
mod Patching
mod Symbols
mod Hashing
mod Objects
mod Registers
mod Conditions
mod Emitters
mod Chunks
mod Cache
mod RoundTrip
mod Returns
mod Entry
mod Listing
mod Jumps
