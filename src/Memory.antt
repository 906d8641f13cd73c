-- ===== src/Memory.antt =====
-- Memory as the byte at each address, and how raw pointers read and write it: src/loader.rs and
-- src/wrapped/elf_lookup.rs. Words are little-endian.
use native.Mathlib.Nat.{add-zero}
use xob.Base.{
  ℕ, zero, suc, ◌+◌, ◌-◌, ◌*◌, ◌/◌, ◌%◌, ◌^◌, ◌<◌, ◌≤◌, ◌⊎◌, refl, ◌≡◌, ◌∙◌, arith, Bool, true,
  false, ◌&&◌, ◌||◌, length, get_elem?, ==_refl, Option, some, none, inl, inr, List, [], ◌∷◌, ltb,
  leb, ◌==◌, if◌then◌else◌,
}

abbrev pub Memory : Type 0
Memory = ℕ → ℕ

-- A word of `n` bytes.
unfoldable pub read_le : ℕ → Memory → ℕ → ℕ
read_le zero m addr = 0
read_le (suc n) m addr = m addr + 256 * read_le n m (addr + 1)

abbrev pub read_u32 : Memory → ℕ → ℕ
read_u32 = read_le 4

abbrev pub read_u64 : Memory → ℕ → ℕ
read_u64 = read_le 8

unfoldable pub write_u64 : Memory → ℕ → ℕ → Memory
write_u64 m addr value x =
    if leb addr x && ltb x (addr + 8) then value / 256 ^ (x - addr) % 256 else m x

-- A string without its final zero byte.
abbrev pub Name : Type 0
Name = List ℕ

-- `CStr::from_ptr(addr) == name`, where no byte of the name is zero.
unfoldable pub c_str_is : Memory → ℕ → Name → Bool
c_str_is m addr [] = m addr == 0
c_str_is m addr (b ∷ bs) = m addr == b && c_str_is m (addr + 1) bs

-- `==` on names
unfoldable pub same_name : Name → Name → Bool
same_name [] [] = true
same_name [] (b ∷ bs) = false
same_name (a ∷ as_) [] = false
same_name (a ∷ as_) (b ∷ bs) = a == b && same_name as_ bs

unfoldable pub starts_with : Name → Name → Bool
starts_with name [] = true
starts_with [] (p ∷ ps) = false
starts_with (b ∷ bs) (p ∷ ps) = b == p && starts_with bs ps

unfoldable pub ends_with : Name → Name → Bool
unfolding same_name
ends_with [] suffix = same_name [] suffix
ends_with (b ∷ bs) suffix = same_name (b ∷ bs) suffix || ends_with bs suffix

-- A hash map from names, as an association list with the newest entry first: `get` and `insert`.
abbrev pub NameMap : Type 0
NameMap = List (Name × ℕ)

unfoldable pub get_name : NameMap → Name → Option ℕ
get_name [] name = none
get_name ((key, value) ∷ entries) name =
    if same_name key name then some value else get_name entries name

unfoldable pub insert_name : NameMap → Name → ℕ → NameMap
insert_name entries name value = (name, value) ∷ entries

pub same_name_refl : (name : Name) → same_name name name ≡ true
unfolding same_name
same_name_refl [] = refl
same_name_refl (b ∷ bs) = rw (==_refl b) (same_name_refl bs)

pub same_name_eq : (a b : Name) → same_name a b ≡ true → a ≡ b
unfolding same_name
same_name_eq [] [] e = refl
same_name_eq [] (y ∷ b) e = cc
same_name_eq (x ∷ a) [] e = cc
same_name_eq (x ∷ a) (y ∷ b) e =
    let heads : x ≡ y = ground arith in let tails : a ≡ b = same_name_eq a b (ground arith) in cc

pub get_name-insert_name :
    (entries : NameMap) (key name : Name) (value : ℕ)
    → get_name (insert_name entries key value) name
      ≡ (if same_name key name then some value else get_name entries name)
unfolding get_name insert_name
get_name-insert_name entries key name value = refl

write_u64-inside :
    (m : Memory) (addr value k : ℕ)
    → k < 8
    → write_u64 m addr value (addr + k) ≡ value / 256 ^ k % 256
unfolding write_u64
write_u64-inside m addr value k lt = ground arith

pub write_u64-outside :
    (m : Memory) (addr value x : ℕ) → (x < addr) ⊎ (addr + 8 ≤ x) → write_u64 m addr value x ≡ m x
unfolding write_u64
write_u64-outside m addr value x out = ground arith

pub read_le-cong :
    (n : ℕ) (m m' : Memory) (addr : ℕ)
    → ((x : ℕ) → x < n → m' (addr + x) ≡ m (addr + x))
    → read_le n m' addr ≡ read_le n m addr
unfolding read_le
read_le-cong zero m m' addr same = refl
read_le-cong (suc n) m m' addr same =
    let rest =
      read_le-cong n m m' (addr + 1) (λ x lt. ground (arith, same (1 + x) (omega arith))) in
    ground (arith, same 0 (omega arith), rest)

-- The digits of a number below 256 ^ 8.
read_le-digits :
    (m : Memory) (addr value : ℕ)
    → ((k : ℕ) → k < 8 → m (addr + k) ≡ value / 256 ^ k % 256)
    → read_u64 m addr ≡ value % 2 ^ 64
unfolding read_le
read_le-digits m addr value digit =
    let d0 = digit 0 (omega arith) in
    let d1 = digit 1 (omega arith) in
    let d2 = digit 2 (omega arith) in
    let d3 = digit 3 (omega arith) in
    let d4 = digit 4 (omega arith) in
    let d5 = digit 5 (omega arith) in
    let d6 = digit 6 (omega arith) in
    let d7 = digit 7 (omega arith) in ground (arith, d0, d1, d2, d3, d4, d5, d6, d7)

pub read_u64-write_u64 :
    (m : Memory) (addr value : ℕ) → read_u64 (write_u64 m addr value) addr ≡ value % 2 ^ 64
read_u64-write_u64 m addr value =
    read_le-digits (write_u64 m addr value) addr value (write_u64-inside m addr value)

pub read_u64-elsewhere :
    (m : Memory) (addr value at : ℕ)
    → (at + 8 ≤ addr) ⊎ (addr + 8 ≤ at)
    → read_u64 (write_u64 m addr value) at ≡ read_u64 m at
read_u64-elsewhere m addr value at out = read_le-cong 8 m (write_u64 m addr value) at (λ x lt.
    write_u64-outside m addr value (at + x)
      (elim out [ inl before ↦ inl (omega arith) | inr after ↦ inr (omega arith) ]))

-- `copy_from_slice`
unfoldable pub write_bytes : Memory → ℕ → List ℕ → Memory
write_bytes m addr [] = m
write_bytes m addr (b ∷ bs) = write_bytes (λ x. if x == addr then b else m x) (addr + 1) bs

pub write_bytes-outside :
    (m : Memory) (addr : ℕ) (bytes : List ℕ) (x : ℕ)
    → (x < addr) ⊎ (addr + length bytes ≤ x)
    → write_bytes m addr bytes x ≡ m x
unfolding write_bytes
write_bytes-outside m addr [] x out = refl
write_bytes-outside m addr (b ∷ bs) x out =
    let rest =
      write_bytes-outside (λ y. if y == addr then b else m y) (addr + 1) bs x
        (elim out [ inl before ↦ inl (omega arith) | inr after ↦ inr (omega arith) ]) in
    rest ∙ other_byte (ground arith)
  where
    other_byte : (x == addr) ≡ false → (if x == addr then b else m x) ≡ m x
    other_byte e = rw e refl

pub write_bytes-inside :
    (m : Memory) (addr : ℕ) (bytes : List ℕ) (i b : ℕ)
    → get_elem? bytes i ≡ some b
    → write_bytes m addr bytes (addr + i) ≡ b
unfolding write_bytes
write_bytes-inside m addr [] i b h = cc
write_bytes-inside m addr (c ∷ cs) zero b h =
    let here =
      write_bytes-outside (λ y. if y == addr then c else m y) (addr + 1) cs addr
        (inl (omega arith)) in
    rw (add-zero addr) (here ∙ first_byte (ground (arith, h)))
  where
    first_byte : c ≡ b → (if addr == addr then c else m addr) ≡ b
    first_byte e = rw (==_refl addr) e
write_bytes-inside m addr (c ∷ cs) (suc i) b h =
    let place : addr + suc i ≡ addr + 1 + i = omega arith in
    rw place (write_bytes-inside (λ y. if y == addr then c else m y) (addr + 1) cs i b h)
