-- ===== src/Wrapped/ElfLookup.antt =====
-- src/wrapped/elf_lookup.rs: the GNU hash table of a loaded library, read from memory. The loops
-- over raw memory run on fuel; without an end within the fuel they are a panic here.
pub mod Reference
pub mod Scan
use xob.Base.{
  ℕ, zero, suc, ◌+◌, ◌-◌, ◌*◌, ◌/◌, ◌%◌, ◌^◌, Bool, not, ◌&&◌, ◌||◌, List, [], ◌∷◌, Option, none,
  some, ltb, ◌==◌, if◌then◌else◌,
}
use xob.Outcome.{Outcome, ok, panic, unwrap, ◌>>=◌}
use xob.Words.{bit_set}
use xob.Memory.{Memory, Name, read_u32, read_u64, read_le, c_str_is, ends_with}

abbrev pub pt_dynamic : ℕ
pt_dynamic = 2

abbrev pub dt_null : ℕ
dt_null = 0

abbrev pub dt_strtab : ℕ
dt_strtab = 5

abbrev pub dt_symtab : ℕ
dt_symtab = 6

abbrev pub dt_gnu_hash : ℕ
dt_gnu_hash = 1879047925

pub record Phdr : Type 0 where
  pub p_type : ℕ
  pub p_vaddr : ℕ

pub record LoadedObjectInfo : Type 0 where
  pub path : Name
  pub base_addr : ℕ
  pub phdrs : List Phdr

-- The first object whose path ends with the name.
unfoldable pub loaded_object_info : List LoadedObjectInfo → Name → Option LoadedObjectInfo
loaded_object_info [] name = none
loaded_object_info (info ∷ infos) name =
    if ends_with info.path name then some info else loaded_object_info infos name

pub record GnuHashTableHeader : Type 0 where
  pub nbuckets : ℕ
  pub symoffset : ℕ
  pub bloom_size : ℕ
  pub bloom_shift : ℕ

pub record GnuHashTable : Type 0 where
  pub header : GnuHashTableHeader
  pub bloom : ℕ
  pub buckets : ℕ
  pub chain : ℕ

pub record SymbolFinder : Type 0 where
  pub hash_table : GnuHashTable
  pub symtab : ℕ
  pub strtab : ℕ

-- The last values of the three tags before the end of the dynamic table.
pub record DynamicTable : Type 0 where
  pub strtab : Option ℕ
  pub symtab : Option ℕ
  pub gnu_hash : Option ℕ

unfoldable pub record_entry : DynamicTable → ℕ → ℕ → DynamicTable
record_entry found tag value =
    if tag == dt_strtab
    then record found { strtab = some value }
    else if tag == dt_symtab
    then record found { symtab = some value }
    else if tag == dt_gnu_hash
    then record found { gnu_hash = some value }
    else found

unfoldable pub scan_dynamic : ℕ → Memory → ℕ → DynamicTable → Outcome DynamicTable
unfolding record_entry
scan_dynamic zero m entry found = panic
scan_dynamic (suc fuel) m entry found =
    let rest =
      scan_dynamic fuel m (entry + 16)
        (record_entry found (read_u64 m entry) (read_u64 m (entry + 8))) in
    if read_u64 m entry == dt_null then ok found else rest

unfoldable pub find_dynamic : List Phdr → Option Phdr
find_dynamic [] = none
find_dynamic (phdr ∷ phdrs) = if phdr.p_type == pt_dynamic then some phdr else find_dynamic phdrs

unfoldable pub read_header : Memory → ℕ → GnuHashTableHeader
read_header m addr = record {
  nbuckets = read_u32 m addr;
  symoffset = read_u32 m (addr + 4);
  bloom_size = read_u32 m (addr + 8);
  bloom_shift = read_u32 m (addr + 12);
}

-- The bloom filter, the buckets and the chains follow the header.
unfoldable pub hash_table_at : GnuHashTableHeader → ℕ → GnuHashTable
hash_table_at header gnu_hash = record {
  header = header;
  bloom = gnu_hash + 16;
  buckets = gnu_hash + 16 + header.bloom_size * 8;
  chain = gnu_hash + 16 + header.bloom_size * 8 + header.nbuckets * 4;
}

unfoldable pub new : ℕ → Memory → LoadedObjectInfo → Outcome SymbolFinder
unfolding find_dynamic scan_dynamic read_header hash_table_at
new fuel m obj_info = do
  dyn_header ← unwrap (find_dynamic obj_info.phdrs)
  found ←
      scan_dynamic fuel m (obj_info.base_addr + dyn_header.p_vaddr)
        (record { strtab = none; symtab = none; gnu_hash = none })
  strtab ← unwrap found.strtab
  symtab ← unwrap found.symtab
  gnu_hash ← unwrap found.gnu_hash
  ok (record {
    hash_table = hash_table_at (read_header m gnu_hash) gnu_hash;
    symtab = symtab;
    strtab = strtab;
  })

-- `bloom()[idx]` and `buckets()[idx]`
unfoldable pub bloom_at : Memory → GnuHashTable → ℕ → Outcome ℕ
bloom_at m table idx =
    if ltb idx table.header.bloom_size then ok (read_u64 m (table.bloom + 8 * idx)) else panic

unfoldable pub bucket_at : Memory → GnuHashTable → ℕ → Outcome ℕ
bucket_at m table idx =
    if ltb idx table.header.nbuckets then ok (read_u32 m (table.buckets + 4 * idx)) else panic

unfoldable pub chain_at : Memory → GnuHashTable → ℕ → ℕ
chain_at m table idx = read_u32 m (table.chain + 4 * idx)

-- The address of a symbol, and whether it has a name.
abbrev pub symbol_at : SymbolFinder → ℕ → ℕ
symbol_at finder sym_idx = finder.symtab + 24 * sym_idx

unfoldable pub is_named : Memory → SymbolFinder → ℕ → Name → Bool
is_named m finder sym_idx name =
    c_str_is m (finder.strtab + read_u32 m (symbol_at finder sym_idx)) name

unfoldable pub bit_is_set : ℕ → ℕ → Bool
bit_is_set num idx = bit_set num idx

-- `%` by zero panics.
unfoldable pub rem : ℕ → ℕ → Outcome ℕ
rem n zero = panic
rem n (suc d) = ok (n % suc d)

unfoldable pub search_chain : ℕ → Memory → SymbolFinder → Name → ℕ → ℕ → Outcome (Option ℕ)
unfolding chain_at is_named
search_chain zero m finder name hash chain_idx = panic
search_chain (suc fuel) m finder name hash chain_idx =
    let chain_hash = chain_at m finder.hash_table chain_idx in
    let sym_idx = (chain_idx + finder.hash_table.header.symoffset) % 2 ^ 32 in
    let rest = search_chain fuel m finder name hash ((chain_idx + 1) % 2 ^ 32) in
    if chain_hash / 2 == hash / 2 && is_named m finder sym_idx name
    then ok (some (symbol_at finder sym_idx))
    else if chain_hash % 2 == 1
    then ok none
    else rest

-- The Bloom filter: both bits of the hash are set.
unfoldable pub maybe_present : Memory → GnuHashTable → ℕ → Outcome Bool
unfolding rem bloom_at bit_is_set
maybe_present m table hash = do
  bloom_idx ← rem (hash / 64) table.header.bloom_size
  bloom_word ← bloom_at m table bloom_idx
  ok (
      bit_is_set bloom_word (hash % 64)
      && bit_is_set bloom_word (hash / 2 ^ (table.header.bloom_shift % 32) % 64))

unfoldable pub search_bucket : ℕ → Memory → SymbolFinder → Name → ℕ → Outcome (Option ℕ)
unfolding rem bucket_at search_chain
search_bucket fuel m finder name hash = do
  bucket_idx ← rem hash finder.hash_table.header.nbuckets
  bucket ← bucket_at m finder.hash_table bucket_idx
  let symoffset = finder.hash_table.header.symoffset
  if ltb bucket symoffset
      then ok none
      else search_chain fuel m finder name hash (bucket - symoffset)

module _ (gnu_hash : Name → ℕ) where
  unfoldable pub lookup : ℕ → Memory → SymbolFinder → Name → Outcome (Option ℕ)
  unfolding maybe_present search_bucket
  lookup fuel m finder name = do
    let hash = gnu_hash name
    present ← maybe_present m finder.hash_table hash
    if present then search_bucket fuel m finder name hash else ok none
