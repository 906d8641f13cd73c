-- ===== src/Wrapped/ElfLookup/Scan.antt =====
-- `SymbolFinder::new` of src/wrapped/elf_lookup.rs: the scan of the dynamic table.
use mathlib.Core.Path.{subst}
use native.Mathlib.Nat.{add-zero, zero-add}
use xob.Base.{
  ℕ, zero, suc, ◌+◌, ◌*◌, ◌≤◌, ◌<◌, ◌≡◌, refl, sym, ap, ◌∙◌, arith, true, false, Option, none, some,
  ◌==◌, if◌then◌else◌, Bool-cases, inl, inr,
}
use xob.Outcome.{ok}
use xob.Memory.{Memory, read_u64}
use xob.Wrapped.ElfLookup.{
  Phdr, LoadedObjectInfo, DynamicTable, dt_null, dt_strtab, dt_symtab, dt_gnu_hash, record_entry,
  scan_dynamic, find_dynamic, read_header, hash_table_at, new,
}

module _ (m : Memory) (entry : ℕ) where
  -- The tag and the value of an entry of the dynamic table.
  abbrev pub tag : ℕ → ℕ
  tag i = read_u64 m (entry + 16 * i)

  abbrev pub val : ℕ → ℕ
  val i = read_u64 m (entry + 16 * i + 8)

  -- The value of the last of the first `n` entries that has a tag.
  unfoldable pub last_value : ℕ → ℕ → Option ℕ
  last_value t zero = none
  last_value t (suc n) = if tag n == t then some (val n) else last_value t n

  abbrev pub found_in : ℕ → DynamicTable
  found_in n = record {
    strtab = last_value dt_strtab n;
    symtab = last_value dt_symtab n;
    gnu_hash = last_value dt_gnu_hash n;
  }

  record_entry-found_in : (n : ℕ) → record_entry (found_in n) (tag n) (val n) ≡ found_in (suc n)
  unfolding record_entry last_value
  record_entry-found_in n = elim (Bool-cases (tag n == dt_strtab)) [
    | inl str ↦
        (let not_sym : (tag n == dt_symtab) ≡ false = ground (arith, str) in
          let not_hash : (tag n == dt_gnu_hash) ≡ false = ground (arith, str) in
          rw (str, not_sym, not_hash) refl)
    | inr not_str ↦ elim (Bool-cases (tag n == dt_symtab)) [
      | inl sym_tag ↦
          (let not_hash : (tag n == dt_gnu_hash) ≡ false = ground (arith, sym_tag) in
            rw (not_str, sym_tag, not_hash) refl)
      | inr not_sym ↦ elim (Bool-cases (tag n == dt_gnu_hash)) [
        | inl hash ↦ rw (not_str, not_sym, hash) refl
        | inr other ↦ rw (not_str, not_sym, other) refl
      ]
    ]
  ]

  -- From entry `n` on, `k` entries before the end.
  scan_dynamic-found_in :
      (k n fuel : ℕ)
      → k < fuel
      → ((i : ℕ) → n ≤ i → i < n + k → (tag i == dt_null) ≡ false)
      → (tag (n + k) == dt_null) ≡ true
      → scan_dynamic fuel m (entry + 16 * n) (found_in n) ≡ ok (found_in (n + k))
  unfolding scan_dynamic
  scan_dynamic-found_in k n zero enough inner last = absurd (omega arith)
  scan_dynamic-found_in zero n (suc fuel) enough inner last =
      let here : (tag n == dt_null) ≡ true =
        subst (λ (i : ℕ). (tag i == dt_null) ≡ true) (add-zero n) last in
      rw (add-zero n, here) refl
  scan_dynamic-found_in (suc k) n (suc fuel) enough inner last =
      let later : n + suc k ≡ suc n + k = omega arith in
      let next : entry + 16 * n + 16 ≡ entry + 16 * suc n = omega arith in
      rw (inner n (omega arith) (omega arith), record_entry-found_in n, next, later)
        (scan_dynamic-found_in k (suc n) fuel (omega arith)
          (λ i ge lt. inner i (omega arith) (omega arith))
          (subst (λ (i : ℕ). (tag i == dt_null) ≡ true) later last))

-- Where an object has a dynamic header, its table ends after `n` entries, and the last of them with
-- the tags for the strings, the symbols and the hash table have the values given, more fuel than `n`
-- makes `new` return the finder with these values, and with the tables where the header says.
pub new-returns :
    (fuel n : ℕ) (m : Memory) (info : LoadedObjectInfo) (phdr : Phdr) (strtab symtab gnu_hash : ℕ)
    → find_dynamic info.phdrs ≡ some phdr
    → n < fuel
    → ((i : ℕ) → i < n → (tag m (info.base_addr + phdr.p_vaddr) i == dt_null) ≡ false)
    → (tag m (info.base_addr + phdr.p_vaddr) n == dt_null) ≡ true
    → last_value m (info.base_addr + phdr.p_vaddr) dt_strtab n ≡ some strtab
    → last_value m (info.base_addr + phdr.p_vaddr) dt_symtab n ≡ some symtab
    → last_value m (info.base_addr + phdr.p_vaddr) dt_gnu_hash n ≡ some gnu_hash
    → new fuel m info
      ≡ ok (record {
        hash_table = hash_table_at (read_header m gnu_hash) gnu_hash;
        symtab = symtab;
        strtab = strtab;
      })
unfolding new last_value
new-returns fuel n m info phdr strtab symtab gnu_hash header enough inner last str sym_ hash =
    let entry = info.base_addr + phdr.p_vaddr in
    let start : entry ≡ entry + 16 * 0 = omega arith in
    let scanned : scan_dynamic fuel m entry (found_in m entry 0) ≡ ok (found_in m entry n) =
      ap (λ (at : ℕ). scan_dynamic fuel m at (found_in m entry 0)) start
      ∙ scan_dynamic-found_in m entry n 0 fuel enough (λ i ge lt. inner i (omega arith))
          (subst (λ (i : ℕ). (tag m entry i == dt_null) ≡ true) (sym (zero-add n)) last)
      ∙ ap (λ (i : ℕ). ok (found_in m entry i)) (zero-add n) in
    rw (header, scanned, str, sym_, hash) refl
