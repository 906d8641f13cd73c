-- ===== src/Loader/Relocations/Meaning.antt =====
-- What the relocations of an object ask of memory.
use xob.Base.{
  ℕ, ◌+◌, ◌%◌, ◌^◌, ◌≤◌, ◌<◌, ◌≡◌, ◌⊎◌, true, false, List, [], ◌∷◌, Option, none, some, arith,
  Option-cases, inl, inr,
}
use xob.Memory.{Memory, Name, NameMap, get_name, read_u64}
use xob.Loader.Relocations.{Relocation, RelocationSymbol, r_aarch64_relative}

unfoldable pub prefer : Option ℕ → Option ℕ → Option ℕ
prefer (some val) other = some val
prefer none other = other

-- Where a name is found: in the symbols of the object, else in the global ones.
unfoldable pub address_of : NameMap → NameMap → Name → Option ℕ
unfolding prefer
address_of local_symbols globals name = prefer (get_name local_symbols name) (get_name globals name)

pub address-kept :
    (locals g g' : NameMap) (name : Name) (val : ℕ)
    → ((n : Name) (a : ℕ) → get_name g n ≡ some a → get_name g' n ≡ some a)
    → address_of locals g name ≡ some val
    → address_of locals g' name ≡ some val
unfolding address_of prefer
address-kept locals g g' name val kept e = elim (Option-cases (get_name locals name)) [
  | inl absent ↦ rw absent (kept name val (rw absent at e))
  | inr (a, there) ↦ rw there (rw there at e)
]

module _ (symbol_by_index : ℕ → Option RelocationSymbol) (base_addr : ℕ)
    (local_symbols : NameMap) where
  -- What a relocation means for memory, in terms of the symbols known at the end. The place of a
  -- weak symbol keeps what it held before.
  pub data Relocated (globals : NameMap) (before m : Memory) (r : Relocation) : Type 0 where
    relative :
        r.r_type ≡ some r_aarch64_relative
        → read_u64 m (base_addr + r.addr) ≡ (base_addr + r.addend) % 2 ^ 64
        → Relocated globals before m r
    bound :
        (idx val : ℕ) (symbol : RelocationSymbol)
        → r.target ≡ some idx
        → symbol_by_index idx ≡ some symbol
        → symbol.is_weak ≡ false
        → address_of local_symbols globals symbol.name ≡ some val
        → read_u64 m (base_addr + r.addr) ≡ val % 2 ^ 64
        → Relocated globals before m r
    skipped :
        (idx : ℕ) (symbol : RelocationSymbol)
        → r.target ≡ some idx
        → symbol_by_index idx ≡ some symbol
        → symbol.is_weak ≡ true
        → read_u64 m (base_addr + r.addr) ≡ read_u64 before (base_addr + r.addr)
        → Relocated globals before m r

  abbrev pub Apart : Relocation → Relocation → Type 0
  Apart r q = (r.addr + 8 ≤ q.addr) ⊎ (q.addr + 8 ≤ r.addr)

  abbrev pub ApartFrom : Relocation → List Relocation → Type 0
  ApartFrom r [] = Unit {0}
  ApartFrom r (q ∷ qs) = Apart r q × ApartFrom r qs

  -- No two relocations share a byte.
  abbrev pub Distinct : List Relocation → Type 0
  Distinct [] = Unit {0}
  Distinct (r ∷ rs) = ApartFrom r rs × Distinct rs

  abbrev pub AllRelocated : NameMap → Memory → Memory → List Relocation → Type 0
  AllRelocated globals before m [] = Unit {0}
  AllRelocated globals before m (r ∷ rs) =
      Relocated globals before m r × AllRelocated globals before m rs

  abbrev pub Outside : ℕ → Relocation → Type 0
  Outside x r = (x < base_addr + r.addr) ⊎ (base_addr + r.addr + 8 ≤ x)

  abbrev pub OutsideAll : ℕ → List Relocation → Type 0
  OutsideAll x [] = Unit {0}
  OutsideAll x (r ∷ rs) = Outside x r × OutsideAll x rs

  pub Outside-second :
      (r q : Relocation) (x : ℕ) → Apart r q → x < 8 → Outside (base_addr + q.addr + x) r
  Outside-second r q x (inl before) lt = inr (omega arith)
  Outside-second r q x (inr after) lt = inl (omega arith)

  pub Outside-first :
      (r q : Relocation) (x : ℕ) → Apart r q → x < 8 → Outside (base_addr + r.addr + x) q
  Outside-first r q x (inl before) lt = inl (omega arith)
  Outside-first r q x (inr after) lt = inr (omega arith)
