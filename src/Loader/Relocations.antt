-- ===== src/Loader/Relocations.antt =====
-- `resolve_relocations` of src/loader.rs. The relocations and symbols are as the `object` crate
-- reads them; `none` is a kind of relocation or target that it does not give for these files.
pub mod Meaning
pub mod Slots
use xob.Base.{ℕ, ◌+◌, ◌%◌, ◌^◌, Bool, ◌||◌, List, [], ◌∷◌, Option, none, some, ◌==◌, if◌then◌else◌}
use xob.Outcome.{Outcome, ok, panic, unwrap, ◌>>=◌}
use xob.Memory.{Name, NameMap, get_name, write_u64}
use xob.Vendor.{Vendor}
use xob.ExecPool.{Callbacks}
use xob.Finalize.{Platform}
use xob.Wrapped.Overrides.{Host}
use xob.Loader.Symbols.{Loading, get_symbol}

abbrev pub r_aarch64_glob_dat : ℕ
r_aarch64_glob_dat = 1025

abbrev pub r_aarch64_jump_slot : ℕ
r_aarch64_jump_slot = 1026

abbrev pub r_aarch64_relative : ℕ
r_aarch64_relative = 1027

-- The addend is a bit pattern of 64 bits.
pub record Relocation : Type 0 where
  pub addr : ℕ
  pub r_type : Option ℕ
  pub addend : ℕ
  pub target : Option ℕ

pub record RelocationSymbol : Type 0 where
  pub name : Name
  pub is_weak : Bool

abbrev pub write_at : Loading → ℕ → ℕ → Loading
write_at s addr value = record s { memory = write_u64 s.memory addr value }

module _ ⦃h : Host⦄ ⦃v : Vendor⦄ ⦃cb : Callbacks⦄ ⦃p : Platform⦄ (fuel : ℕ)
    (symbol_by_index : ℕ → Option RelocationSymbol) (base_addr : ℕ) (local_symbols : NameMap) where
  unfoldable pub symbol_value : Loading → Name → Option ℕ → Outcome (Loading × ℕ)
  symbol_value s name (some val) = ok (s, val)
  symbol_value s name none = get_symbol fuel s name

  -- A weak symbol leaves the place as it is.
  unfoldable pub resolve_symbol : Loading → ℕ → RelocationSymbol → Outcome Loading
  unfolding symbol_value
  resolve_symbol s addr symbol = if symbol.is_weak then ok s else (do
    (s', val) ← symbol_value s symbol.name (get_name local_symbols symbol.name)
    ok (write_at s' (base_addr + addr) val))

  unfoldable pub bind_symbol : Loading → Relocation → Outcome Loading
  unfolding resolve_symbol
  bind_symbol s reloc = do
    symbol_idx ← unwrap reloc.target
    symbol ← unwrap (symbol_by_index symbol_idx)
    resolve_symbol s reloc.addr symbol

  unfoldable pub resolve_as : Loading → Relocation → ℕ → Outcome Loading
  unfolding bind_symbol
  resolve_as s reloc ty =
      if ty == r_aarch64_relative
      then ok (write_at s (base_addr + reloc.addr) ((base_addr + reloc.addend) % 2 ^ 64))
      else if ty == r_aarch64_glob_dat || ty == r_aarch64_jump_slot
      then bind_symbol s reloc
      else panic

  unfoldable pub resolve_relocation : Loading → Relocation → Outcome Loading
  unfolding resolve_as
  resolve_relocation s reloc = do ty ← unwrap reloc.r_type; resolve_as s reloc ty

  unfoldable pub resolve_relocations : Loading → List Relocation → Outcome Loading
  unfolding resolve_relocation
  resolve_relocations s [] = ok s
  resolve_relocations s (reloc ∷ relocs) = do
    s' ← resolve_relocation s reloc
    resolve_relocations s' relocs
