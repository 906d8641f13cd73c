-- ===== src/Wrapped/ElfLookup/Reference.antt =====
-- `lookup` of src/wrapped/elf_lookup.rs against a search through the whole symbol table.
use mathlib.Core.Path.{subst}
use native.Mathlib.Nat.{zero-add, add-zero, suc-add}
use xob.Base.{
  ℕ, zero, suc, ◌+◌, ◌-◌, ◌/◌, ◌%◌, ◌^◌, ◌≤◌, ◌<◌, ◌≡◌, inl, inr, refl, ap, ◌∙◌, arith, ltb→lt,
  Bool, true, false, Option, none, some, ltb, if◌then◌else◌, Bool-cases,
}
use xob.Outcome.{ok}
use xob.Memory.{Memory, Name}
use xob.Wrapped.ElfLookup.{
  SymbolFinder, symbol_at, is_named, chain_at, bucket_at, maybe_present, rem, search_chain,
  search_bucket, lookup,
}

module _ (m : Memory) (finder : SymbolFinder) (name : Name) where
  -- Whether the symbol at an index behind the first hashed one has the name.
  abbrev pub named : ℕ → Bool
  named i = is_named m finder (i + finder.hash_table.header.symoffset) name

  -- The first of the `n` symbols from index `i` on that has the name.
  unfoldable pub linear_search : ℕ → ℕ → Option ℕ
  linear_search zero i = none
  linear_search (suc n) i =
      if named i
      then some (symbol_at finder (i + finder.hash_table.header.symoffset))
      else linear_search n (i + 1)

  linear_search-empty :
      (n i : ℕ) → ((j : ℕ) → i ≤ j → j < i + n → named j ≡ false) → linear_search n i ≡ none
  unfolding linear_search
  linear_search-empty zero i absent = refl
  linear_search-empty (suc n) i absent =
      rw (absent i (omega arith) (omega arith))
        (linear_search-empty n (i + 1) (λ j ge lt. absent j (omega arith) (omega arith)))

  -- Indices without the name, in front and behind, do not matter.
  linear_search-skip :
      (k n i : ℕ)
      → ((j : ℕ) → i ≤ j → j < i + k → named j ≡ false)
      → linear_search (k + n) i ≡ linear_search n (i + k)
  unfolding linear_search
  linear_search-skip zero n i absent = rw (zero-add n, add-zero i) refl
  linear_search-skip (suc k) n i absent =
      let next : i + suc k ≡ i + 1 + k = omega arith in
      rw (suc-add k n, next, absent i (omega arith) (omega arith))
        (linear_search-skip k n (i + 1) (λ j ge lt. absent j (omega arith) (omega arith)))

  linear_search-stop :
      (n k i : ℕ)
      → ((j : ℕ) → i + n ≤ j → j < i + n + k → named j ≡ false)
      → linear_search (n + k) i ≡ linear_search n i
  unfolding linear_search
  linear_search-stop zero k i absent =
      rw (zero-add k) (linear_search-empty k i (λ j ge lt. absent j (omega arith) (omega arith)))
  linear_search-stop (suc n) k i absent =
      let rest = linear_search-stop n k (i + 1) (λ j ge lt. absent j (omega arith) (omega arith)) in
      rw (suc-add n k, rest) refl

  -- A chain from index `i` on: `d` entries later comes the first that is marked as the end, and the
  -- hash is on the entry of each index with the name.
  search_chain-linear :
      (hash d fuel i : ℕ)
      → d < fuel
      → i + d + finder.hash_table.header.symoffset < 2 ^ 32
      → ((j : ℕ) → i ≤ j → j < i + d → chain_at m finder.hash_table j % 2 ≡ 0)
      → chain_at m finder.hash_table (i + d) % 2 ≡ 1
      → ((j : ℕ)
          → i ≤ j
          → j ≤ i + d
          → named j ≡ true
          → chain_at m finder.hash_table j / 2 ≡ hash / 2)
      → search_chain fuel m finder name hash i ≡ ok (linear_search (suc d) i)
  unfolding search_chain linear_search
  search_chain-linear hash d zero i enough small inner last hashed = absurd (omega arith)
  search_chain-linear hash zero (suc fuel) i enough small inner last hashed =
      let here = add-zero i in
      let wrap : (i + finder.hash_table.header.symoffset) % 2 ^ 32
          ≡ i + finder.hash_table.header.symoffset =
        omega (arith, small) in
      rw wrap (elim (Bool-cases (named i)) [
        | inl found ↦ ground (arith, found, hashed i (omega arith) (omega arith) found)
        | inr other ↦ ground (arith, other, last, here)
      ])
  search_chain-linear hash (suc d) (suc fuel) i enough small inner last hashed =
      let next : i + suc d ≡ i + 1 + d = omega arith in
      let rest =
        search_chain-linear hash d fuel (i + 1) (omega arith) (omega (arith, small))
          (λ j ge lt. inner j (omega arith) (omega arith))
          (subst (λ (j : ℕ). chain_at m finder.hash_table j % 2 ≡ 1) next last)
          (λ j ge le. hashed j (omega arith) (omega arith)) in
      let wrap : (i + finder.hash_table.header.symoffset) % 2 ^ 32
          ≡ i + finder.hash_table.header.symoffset =
        omega (arith, small) in
      let step : (i + 1) % 2 ^ 32 ≡ i + 1 = omega (arith, small) in
      rw (wrap, step)
        (elim (Bool-cases (named i)) [
          | inl found ↦ ground (arith, found, hashed i (omega arith) (omega arith) found)
          | inr other ↦ ground (arith, other, rest, inner i (omega arith) (omega arith))
        ])

  -- What the format asks of a table of `n` hashed symbols, as far as one name goes: the filter lets the
  -- name through, and its bucket starts the one chain that holds all symbols with the name, has the
  -- hash on their entries, and ends where the first entry is marked.
  pub record Hashed (hash n : ℕ) : Type 0 where
    pub present : Bool
    pub filter : maybe_present m finder.hash_table hash ≡ ok present
    pub bucket_idx : ℕ
    pub bucket : ℕ
    pub reduced : rem hash finder.hash_table.header.nbuckets ≡ ok bucket_idx
    pub bucket_there : bucket_at m finder.hash_table bucket_idx ≡ ok bucket
    pub let_through : (i : ℕ) → i < n → named i ≡ true → present ≡ true
    pub starts :
        (i : ℕ)
        → i < n
        → named i ≡ true
        → finder.hash_table.header.symoffset ≤ bucket
          × (bucket ≤ i + finder.hash_table.header.symoffset)
    pub in_range : n + finder.hash_table.header.symoffset ≤ 2 ^ 32
    pub chain_length : ℕ
    pub ends :
        finder.hash_table.header.symoffset ≤ bucket
        → (bucket - finder.hash_table.header.symoffset + chain_length < n)
          × (chain_at m finder.hash_table
                  (bucket - finder.hash_table.header.symoffset + chain_length)
                % 2
              ≡ 1)
    pub inner :
        (j : ℕ)
        → bucket ≤ j + finder.hash_table.header.symoffset
        → j < bucket - finder.hash_table.header.symoffset + chain_length
        → chain_at m finder.hash_table j % 2 ≡ 0
    pub hashed :
        (i : ℕ)
        → i < n
        → named i ≡ true
        → (i ≤ bucket - finder.hash_table.header.symoffset + chain_length)
          × (chain_at m finder.hash_table i / 2 ≡ hash / 2)

  -- An index that would contradict something if it had the name does not have it.
  unnamed : (i : ℕ) → (named i ≡ true → named i ≡ false) → named i ≡ false
  unnamed i contradiction = elim (Bool-cases (named i)) [
    | inl found ↦ contradiction found
    | inr absent ↦ absent
  ]

  -- The search through all symbols is one through the chain.
  linear_search-chain :
      (hash n : ℕ) (h : Hashed hash n)
      → finder.hash_table.header.symoffset ≤ h.bucket
      → linear_search n 0
        ≡ linear_search (suc h.chain_length) (h.bucket - finder.hash_table.header.symoffset)
  linear_search-chain hash n h le =
      let start = h.bucket - finder.hash_table.header.symoffset in
      let rest = n - start - suc h.chain_length in
      let within = (h.ends le).0 in
      let whole : n ≡ start + (suc h.chain_length + rest) = omega arith in
      ap (λ (k : ℕ). linear_search k 0) whole
      ∙ linear_search-skip start (suc h.chain_length + rest) 0 (λ j ge lt.
        unnamed j (λ found. let from = (h.starts j (omega arith) found).1 in absurd (omega arith)))
      ∙ linear_search-stop (suc h.chain_length) rest (0 + start) (λ j ge lt.
        unnamed j (λ found. let to = (h.hashed j (omega arith) found).0 in absurd (omega arith)))
      ∙ ap (λ (i : ℕ). linear_search (suc h.chain_length) i) (zero-add start)

  search_bucket-linear :
      (hash n fuel : ℕ)
      → n ≤ fuel
      → (h : Hashed hash n) → search_bucket fuel m finder name hash ≡ ok (linear_search n 0)
  unfolding search_bucket
  search_bucket-linear hash n fuel enough h =
      let start = h.bucket - finder.hash_table.header.symoffset in
      elim (Bool-cases (ltb h.bucket finder.hash_table.header.symoffset)) [
        | inl empty ↦
            let nothing = linear_search-empty n 0 (λ j ge lt. unnamed j (λ found.
              let from = (h.starts j (omega arith) found).0 in
              absurd (omega (arith, ltb→lt _ _ empty)))) in
            rw (h.reduced, h.bucket_there, empty, nothing) refl
        | inr chained ↦
            let le : finder.hash_table.header.symoffset ≤ h.bucket = ground (arith, chained) in
            let (within, last) = h.ends le in
            let walk =
              search_chain-linear hash h.chain_length fuel start (omega arith)
                (let range = h.in_range in omega arith) (λ j ge lt. h.inner j (omega arith) lt) last
                (λ j ge le' found. (h.hashed j (omega arith) found).1) in
            rw (h.reduced, h.bucket_there, chained, walk, linear_search-chain hash n h le) refl
      ]

-- In a table that has the form of a GNU hash table for a name, fuel for its symbols suffices, and
-- `lookup` finds what the search through all the symbols finds: the first one with the name, or none.
pub lookup-linear_search :
    (gnu_hash : Name → ℕ) (m : Memory) (finder : SymbolFinder) (name : Name) (n fuel : ℕ)
    → n ≤ fuel
    → Hashed m finder name (gnu_hash name) n
    → lookup gnu_hash fuel m finder name ≡ ok (linear_search m finder name n 0)
unfolding lookup
lookup-linear_search gnu_hash m finder name n fuel enough h = elim (Bool-cases h.present) [
  | inl passed ↦
      rw (h.filter, passed) (search_bucket-linear m finder name (gnu_hash name) n fuel enough h)
  | inr stopped ↦
      let nothing = linear_search-empty m finder name n 0 (λ j ge lt.
        unnamed m finder name j
          (λ found. let through = h.let_through j (omega arith) found in cc)) in
      rw (h.filter, stopped, nothing) refl
]
