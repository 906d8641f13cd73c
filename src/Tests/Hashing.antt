-- ===== src/Tests/Hashing.antt =====
-- A GNU hash table in memory with the symbols "a" and "b" in one chain, and a dynamic table.
use xob.Base.{
  false, ℕ, zero, suc, ◌/◌, ◌%◌, ◌<◌, ◌≡◌, refl, arith, some, List, [], ◌∷◌, true, ◌==◌,
  if◌then◌else◌,
}
use xob.Outcome.{ok}
use xob.Memory.{Memory, Name, read_le, c_str_is}
use xob.Wrapped.ElfLookup.{
  Phdr, LoadedObjectInfo, find_dynamic, new, read_header, hash_table_at, dt_strtab, dt_symtab,
  dt_gnu_hash, SymbolFinder, lookup, maybe_present, rem, bloom_at, bucket_at, bit_is_set, chain_at,
  is_named,
}
use xob.Wrapped.ElfLookup.Scan.{tag, last_value, new-returns}
use xob.Wrapped.ElfLookup.Reference.{Hashed, named, linear_search, lookup-linear_search}

abbrev byte_of : List (ℕ × ℕ) → ℕ → ℕ
byte_of [] x = 0
byte_of ((at, b) ∷ bytes) x = if at == x then b else byte_of bytes x

-- The filter at 16, the bucket at 24, the chain at 28, the symbols at 36, the names at 108.
abbrev table : Memory
table =
    byte_of
      ((20, 6) ∷ (24, 1) ∷ (28, 96) ∷ (32, 99) ∷ (60, 1) ∷ (84, 3) ∷ (109, 97) ∷ (111, 98) ∷ [])

abbrev finder : SymbolFinder
finder = record {
  hash_table = record {
    header = record { nbuckets = 1; symoffset = 1; bloom_size = 1; bloom_shift = 0 };
    bloom = 16;
    buckets = 24;
    chain = 28;
  };
  symtab = 36;
  strtab = 108;
}

abbrev letter_b : Name
letter_b = 98 ∷ []

abbrev first_byte : Name → ℕ
first_byte [] = 0
first_byte (b ∷ bs) = b

only_second : (i : ℕ) → i < 2 → named table finder letter_b i ≡ true → i ≡ 1
unfolding is_named c_str_is read_le
only_second zero lt e = cc
only_second (suc zero) lt e = refl
only_second (suc (suc i)) lt e = absurd (omega arith)

chain_of_two : (j : ℕ) → j < 1 → chain_at table finder.hash_table j % 2 ≡ 0
unfolding chain_at read_le
chain_of_two zero lt = refl
chain_of_two (suc j) lt = absurd (omega arith)

chain_ends : chain_at table finder.hash_table 1 % 2 ≡ 1
unfolding chain_at read_le
chain_ends = refl

chain_hash : (i : ℕ) → i ≡ 1 → chain_at table finder.hash_table i / 2 ≡ 49
unfolding chain_at read_le
chain_hash i e = rw e refl

passes : maybe_present table finder.hash_table 98 ≡ ok true
unfolding maybe_present rem bloom_at bit_is_set read_le
passes = refl

one_bucket : rem 98 1 ≡ ok 0
unfolding rem
one_bucket = refl

first_bucket : bucket_at table finder.hash_table 0 ≡ ok 1
unfolding bucket_at read_le
first_bucket = refl

letter_b-Hashed : Hashed table finder letter_b 98 2
letter_b-Hashed = record {
  present = true;
  filter = passes;
  bucket_idx = 0;
  bucket = 1;
  reduced = one_bucket;
  bucket_there = first_bucket;
  let_through = λ i lt e. refl;
  starts = λ i lt e. (omega arith, omega arith);
  in_range = omega arith;
  chain_length = 1;
  ends = λ le. (omega arith, chain_ends);
  inner = λ j ge lt. chain_of_two j lt;
  hashed = λ i lt e. let same = only_second i lt e in (omega arith, chain_hash i same);
}

lookup-linear_search_example :
    lookup first_byte 2 table finder letter_b ≡ ok (linear_search table finder letter_b 2 0)
lookup-linear_search_example =
    lookup-linear_search first_byte table finder letter_b 2 2 (omega arith) letter_b-Hashed

finds_second : linear_search table finder letter_b 2 0 ≡ some 84
unfolding linear_search is_named c_str_is read_le
finds_second = refl

-- Three entries of a dynamic table at 200, in front of its end at 248.
abbrev dynamic : Memory
dynamic = byte_of (
    (0, 1)
    ∷ (4, 1)
    ∷ (8, 1)
    ∷ (200, 5)
    ∷ (208, 108)
    ∷ (216, 6)
    ∷ (224, 36)
    ∷ (232, 245)
    ∷ (233, 254)
    ∷ (234, 255)
    ∷ (235, 111)
    ∷ [])

abbrev header : Phdr
header = record { p_type = 2; p_vaddr = 100 }

abbrev info : LoadedObjectInfo
info = record { path = []; base_addr = 100; phdrs = header ∷ [] }

has_header : find_dynamic info.phdrs ≡ some header
unfolding find_dynamic
has_header = refl

before_end : (i : ℕ) → i < 3 → (tag dynamic 200 i == 0) ≡ false
unfolding read_le
before_end zero lt = refl
before_end (suc zero) lt = refl
before_end (suc (suc zero)) lt = refl
before_end (suc (suc (suc i))) lt = absurd (omega arith)

at_end : (tag dynamic 200 3 == 0) ≡ true
unfolding read_le
at_end = refl

strings : last_value dynamic 200 dt_strtab 3 ≡ some 108
unfolding last_value read_le
strings = refl

symbols : last_value dynamic 200 dt_symtab 3 ≡ some 36
unfolding last_value read_le
symbols = refl

hashes : last_value dynamic 200 dt_gnu_hash 3 ≡ some 0
unfolding last_value read_le
hashes = refl

new-returns_example :
    new 4 dynamic info
    ≡ ok
        (record { hash_table = hash_table_at (read_header dynamic 0) 0; symtab = 36; strtab = 108 })
new-returns_example =
    new-returns 4 3 dynamic info header 108 36 0 has_header (omega arith) before_end at_end strings
      symbols hashes
