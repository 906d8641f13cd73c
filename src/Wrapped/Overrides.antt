-- ===== src/Wrapped/Overrides.antt =====
-- src/wrapped/overrides.rs: the symbols of libc that the emulator provides itself.
use xob.Base.{ℕ, Bool, ◌&&◌, List, [], ◌∷◌, if◌then◌else◌}
use xob.Memory.{Name, NameMap, insert_name, starts_with}
use xob.Wrapped.ElfLookup.{LoadedObjectInfo}

-- `dlopen` and `dlsym` give 0 for null; `objects` is what `dl_iterate_phdr` goes through, and
-- `run_resolver` the result of the native function at an address. The last three are the addresses of
-- the overrides of src/wrapped/overrides/libc.rs.
pub record Host : Type 0 where
  pub dlopen : Name → ℕ
  pub dlsym : ℕ → Name → ℕ
  pub objects : List LoadedObjectInfo
  pub gnu_hash : Name → ℕ
  pub run_resolver : ℕ → ℕ
  pub is_utf8 : Name → Bool
  pub libc_start_main : ℕ
  pub cxa_atexit : ℕ
  pub stack_chk_guard : ℕ

-- "libc.so"
abbrev pub libc_so : Name
libc_so = b'l' ∷ b'i' ∷ b'b' ∷ b'c' ∷ b'.' ∷ b's' ∷ b'o' ∷ []

abbrev pub libc_start_main_name : Name
libc_start_main_name =
    b'_' ∷ b'_' ∷ b'l' ∷ b'i' ∷ b'b' ∷ b'c' ∷ b'_' ∷ b's' ∷ b't' ∷ b'a' ∷ b'r' ∷ b't' ∷ b'_' ∷ b'm'
    ∷ b'a' ∷ b'i' ∷ b'n' ∷ []

abbrev pub cxa_atexit_name : Name
cxa_atexit_name =
    b'_' ∷ b'_' ∷ b'c' ∷ b'x' ∷ b'a' ∷ b'_' ∷ b'a' ∷ b't' ∷ b'e' ∷ b'x' ∷ b'i' ∷ b't' ∷ []

abbrev pub stack_chk_guard_name : Name
stack_chk_guard_name =
    b'_' ∷ b'_' ∷ b's' ∷ b't' ∷ b'a' ∷ b'c' ∷ b'k' ∷ b'_' ∷ b'c' ∷ b'h' ∷ b'k' ∷ b'_' ∷ b'g' ∷ b'u'
    ∷ b'a' ∷ b'r' ∷ b'd' ∷ []

module _ ⦃h : Host⦄ where
  unfoldable pub libc_overrides : NameMap
  unfolding insert_name
  libc_overrides =
      insert_name
        (insert_name (insert_name [] libc_start_main_name h.libc_start_main) cxa_atexit_name
          h.cxa_atexit)
        stack_chk_guard_name h.stack_chk_guard

  unfoldable pub get_overrides : Name → NameMap
  unfolding libc_overrides starts_with
  get_overrides name = if h.is_utf8 name && starts_with name libc_so then libc_overrides else []
