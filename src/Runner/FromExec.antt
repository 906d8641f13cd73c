-- ===== src/Runner/FromExec.antt =====
-- From an emulated address to compiled code and back: `get_exec` and `from_exec` of src/runner.rs.
use xob.Base.{
  ℕ, zero, suc, ◌+◌, ◌-◌, ◌*◌, ◌/◌, ◌%◌, ◌≤◌, ◌<◌, ◌≡◌, ◌⊎◌, inl, inr, refl, arith, true, false,
  Option, none, some, [], ◌∷◌, List, ◌==◌, ap, ◌∙◌, Bool-cases,
}
use native.Mathlib.Decide.{dec_le}
use xob.Outcome.{Outcome, ok, unwrap, index, ◌>>=◌}
use xob.Vendor.{Vendor}
use xob.Compiler.{Decoded}
use xob.Finalize.{Platform}
use xob.ExecPool.{
  ExecPool, ChunkMap, CompiledChunk, Callbacks, get_chunk, is_executable, chunk_offset, chunk_start,
}
use xob.Runner.{find_offset, from_exec, in_chunk, get_exec, find_or_compile}
use xob.Runner.Offsets.{AllFrom, Entry, Entry-mono, find_offset-LastAtMost, find_offset-IsSome}

-- The code of two chunks does not overlap.
abbrev pub Disjoint : CompiledChunk → CompiledChunk → Type 0
Disjoint c c' = (c.addr + c.len ≤ c'.addr) ⊎ (c'.addr + c'.len ≤ c.addr)

-- Every key stands once, and the code of the chunks does not overlap.
abbrev pub Apart : ChunkMap → Type 0
Apart [] = Unit
Apart ((j, c) ∷ m) =
    (get_chunk m j ≡ none)
    × ((k : ℕ) (c' : CompiledChunk) → get_chunk m k ≡ some c' → Disjoint c c')
    × Apart m

in_one :
    (c c' : CompiledChunk) (addr : ℕ)
    → Disjoint c c'
    → in_chunk c' addr ≡ true
    → in_chunk c addr ≡ false
in_one c c' addr d h = ground arith

-- The translation of a code address by the chunk at `k`.
abbrev pub translated_by : ℕ → CompiledChunk → ℕ → Outcome ℕ
translated_by k c addr =
    unwrap (find_offset c.instr_map (addr - c.addr)) >>= λ arm_offset. ok (k + arm_offset * 4)

-- In a map of chunks that do not overlap, an address in the code of one is translated by that chunk,
-- whatever the order in which the map is searched.
pub from_exec-chunk :
    (m : ChunkMap) (k : ℕ) (c : CompiledChunk) (addr : ℕ)
    → Apart m
    → get_chunk m k ≡ some c
    → in_chunk c addr ≡ true
    → from_exec m addr ≡ translated_by k c addr
unfolding from_exec get_chunk
from_exec-chunk [] k c addr apart found inside = cc
from_exec-chunk ((j, c0) ∷ m) k c addr apart found inside = elim (Bool-cases (j == k)) [
  | inl same ↦
      (let key : j ≡ k = ground arith in
        let chunk : c0 ≡ c = ground arith in rw (chunk, key, inside) refl)
  | inr other ↦
      (let rest : get_chunk m k ≡ some c = ground arith in
        rw (in_one c0 c addr (apart.1 k c rest) inside)
          (from_exec-chunk m k c addr apart.2 rest inside))
]

find_offset-again :
    (os : List ℕ) (i o : ℕ)
    → AllFrom 0 os
    → Entry os i o
    → (j : ℕ) × (find_offset os o ≡ some j) × Entry os j o × (i ≤ j)
find_offset-again os i o rising here =
    let (j, found, le) = find_offset-IsSome os o i o here (omega arith) in
    let l = find_offset-LastAtMost os o j found in
    let (above, _) = Entry-mono 0 os i j o l.offset rising here l.found le in
    let same : l.offset ≡ o = (let most = l.at_most in omega arith) in
    (j, found, rw same at l.found, le)

-- A compiled chunk with an entry for the emulated address: the state in which `get_exec` gives the
-- code of the entry.
pub record Compiled (pool : ExecPool) (addr o : ℕ) : Type 0 where
  pub chunk : CompiledChunk
  pub executable : is_executable pool addr ≡ true
  pub cached : get_chunk pool.executable_map (chunk_start addr) ≡ some chunk
  pub entry : Entry chunk.instr_map (chunk_offset addr / 4) o
  pub inside : o < chunk.len
  pub rising : AllFrom 0 chunk.instr_map

pub index-Entry : (os : List ℕ) (i o : ℕ) → Entry os i o → index os i ≡ ok o
index-Entry [] i o h = cc
index-Entry (x ∷ xs) zero o h = cc
index-Entry (x ∷ xs) (suc i) o h = index-Entry xs i o h

Entry-before : (os : List ℕ) (i j o : ℕ) → Entry os j o → i ≤ j → (q : ℕ) × Entry os i q
Entry-before [] i j o e le = cc
Entry-before (x ∷ xs) zero j o e le = (x, refl)
Entry-before (x ∷ xs) (suc i) zero o e le = absurd (omega arith)
Entry-before (x ∷ xs) (suc i) (suc j) o e le = Entry-before xs i j o e (omega arith)

-- Where the next offset is higher, the entry is the last one with its offset.
last_same :
    (os : List ℕ) (i j o : ℕ)
    → AllFrom 0 os
    → Entry os j o
    → i ≤ j
    → ((q : ℕ) → Entry os (suc i) q → o < q)
    → j ≡ i
last_same os i j o rising here le next = elim (dec_le j i) [
  | yes h ↦ omega arith
  | no h ↦ absurd (
      let (q, between) = Entry-before os (suc i) j o here (omega arith) in
      let above = next q between in
      let (below, _) = Entry-mono 0 os (suc i) j q o rising between here (omega arith) in
      omega arith)
]

cancel : (a o : ℕ) → a + o - a ≡ o
cancel a o = omega arith

aligned : (addr : ℕ) → addr % 4 ≡ 0 → chunk_start addr + chunk_offset addr / 4 * 4 ≡ addr
aligned addr h = omega arith

module _ ⦃v : Vendor⦄ ⦃cb : Callbacks⦄ ⦃p : Platform⦄ (disasm : ℕ → List Decoded) where
  pub get_exec-entry :
      (pool : ExecPool) (addr o : ℕ) (c : Compiled pool addr o)
      → get_exec disasm pool addr ≡ ok (pool, c.chunk.addr + o)
  unfolding get_exec find_or_compile
  get_exec-entry pool addr o c =
      rw (c.executable, c.cached, index-Entry c.chunk.instr_map (chunk_offset addr / 4) o c.entry)
        refl

  -- In a pool of chunks that do not overlap, for an address whose chunk is cached with offsets that
  -- never fall and an offset below the length of its code, `get_exec` leaves the pool as it is and gives the start of the code of its
  -- instruction; `from_exec` takes that back to the last instruction of the chunk whose code starts
  -- there, which is at or after the address.
  pub from_exec-get_exec :
      (pool : ExecPool) (addr o : ℕ)
      → Apart pool.executable_map
      → (c : Compiled pool addr o)
      → (j : ℕ) × (get_exec disasm pool addr ≡ ok (pool, c.chunk.addr + o))
        × (from_exec pool.executable_map (c.chunk.addr + o) ≡ ok (chunk_start addr + j * 4))
        × Entry c.chunk.instr_map j o
        × (chunk_offset addr / 4 ≤ j)
  from_exec-get_exec pool addr o apart c =
      let (j, found, last, le) =
        find_offset-again c.chunk.instr_map (chunk_offset addr / 4) o c.rising c.entry in
      (
        j,
        get_exec-entry pool addr o c,
        from_exec-chunk pool.executable_map (chunk_start addr) c.chunk (c.chunk.addr + o) apart
              c.cached (let lt = c.inside in ground arith)
            ∙ ap
                (λ (r : Option ℕ).
                  unwrap r >>= λ arm_offset. ok (chunk_start addr + arm_offset * 4))
                (ap (find_offset c.chunk.instr_map) (cancel c.chunk.addr o) ∙ found),
        last,
        le,
      )

  -- In a pool of chunks that do not overlap, for an address whose chunk is cached with offsets that
  -- never fall and an offset below the length of its code, where the address is a multiple of 4 and
  -- the code of its instruction is not empty (the next offset, if there is one, is higher),
  -- `from_exec` inverts `get_exec`.
  pub from_exec-inverts :
      (pool : ExecPool) (addr o : ℕ)
      → Apart pool.executable_map
      → (c : Compiled pool addr o) → addr % 4 ≡ 0
      → ((q : ℕ) → Entry c.chunk.instr_map (suc (chunk_offset addr / 4)) q → o < q)
      → (get_exec disasm pool addr ≡ ok (pool, c.chunk.addr + o))
        × (from_exec pool.executable_map (c.chunk.addr + o) ≡ ok addr)
  from_exec-inverts pool addr o apart c word next =
      let (j, there, back, last, le) = from_exec-get_exec pool addr o apart c in
      let same : j ≡ chunk_offset addr / 4 =
        last_same c.chunk.instr_map (chunk_offset addr / 4) j o c.rising last le next in
      (there, rw (aligned addr word) at (rw same at back))
