-- ===== src/Runner/GetExec.antt =====
-- `get_exec` of src/runner.rs on a pool in order.
use mathlib.Core.Path.{subst}
use xob.Base.{
  ℕ, ◌⊎◌, ap, ◌∙◌, ◌+◌, ◌≡◌, inl, inr, refl, Option, none, some, List, ◌/◌, ==_refl, Bool-cases,
  true,
}
use xob.Outcome.{ok, index, ok-bind, ok-injective}
use xob.Vendor.{Vendor}
use xob.Vendor.Iced.{Call}
use xob.ExecPool.{
  ExecPool, CompiledChunk, Callbacks, get_chunk, insert_chunk, any_range, is_executable,
  chunk_start, chunk_offset,
}
use xob.Compiler.{Decoded, compile_entries_of, instrs_per_chunk}
use xob.Finalize.{Platform}
use xob.Finalize.Placement.{Fresh, Small}
use xob.Runner.{get_exec, find_or_compile, compile_chunk, new_assembler}
use xob.Runner.Cache.{Copied, WellPlaced, Added, insert-WellPlaced, finalize_chunk-Added}

-- What `find_or_compile` gives for the chunk at `k`.
pub record Found (pool pool' : ExecPool) (k : ℕ) (c : CompiledChunk) : Type 0 where
  pub placed : WellPlaced pool'
  pub cached : get_chunk pool'.executable_map k ≡ some c
  pub same_ranges : pool'.exec_ranges ≡ pool.exec_ranges
  pub compiled : (pool'.code ≡ pool.code) ⊎ Copied pool pool' c

insert-Found :
    (pool pool' : ExecPool) (k : ℕ) (c : CompiledChunk)
    → WellPlaced pool
    → get_chunk pool.executable_map k ≡ none
    → Added pool pool' c
    → Found pool (record pool' { executable_map = insert_chunk pool'.executable_map k c }) k c
unfolding insert_chunk get_chunk
insert-Found pool pool' k c w absent added = record {
  placed = insert-WellPlaced pool pool' k c w absent added;
  cached = rw (==_refl k) refl;
  same_ranges = added.same_ranges;
  compiled = inr added.copied;
}

pub same_ranges-is_executable :
    (pool pool' : ExecPool) (addr : ℕ)
    → pool'.exec_ranges ≡ pool.exec_ranges
    → is_executable pool' addr ≡ is_executable pool addr
unfolding is_executable
same_ranges-is_executable pool pool' addr e = ap (λ rs. any_range rs addr) e

-- No code has been copied, or that of one chunk, which is in the pool now.
abbrev pub OneCopy : ExecPool → ExecPool → Type 0
OneCopy pool pool' =
    (pool'.code ≡ pool.code)
    ⊎ ((k : ℕ) × (c : CompiledChunk) × (get_chunk pool'.executable_map k ≡ some c)
        × Copied pool pool' c)

module _ ⦃v : Vendor⦄ ⦃cb : Callbacks⦄ ⦃p : Platform⦄ (disasm : ℕ → List Decoded) where
  -- The calls that compile the chunk at an address.
  abbrev pub chunk_calls : ExecPool → ℕ → List Call
  chunk_calls pool chunk_addr =
      (compile_entries_of pool.executable_map chunk_addr (disasm chunk_addr) new_assembler).1.calls

  again :
      (pool : ExecPool) (addr : ℕ) (c : CompiledChunk) (byte_idx : ℕ)
      → is_executable pool addr ≡ true
      → get_chunk pool.executable_map (chunk_start addr) ≡ some c
      → index c.instr_map (chunk_offset addr / 4) ≡ ok byte_idx
      → get_exec disasm pool addr ≡ ok (pool, c.addr + byte_idx)
  unfolding get_exec find_or_compile
  again pool addr c byte_idx emulated cached entry = rw (emulated, cached, entry) refl

  compiled-Found :
      Fresh p
      → (pool pool' : ExecPool) (k : ℕ) (c : CompiledChunk) → get_chunk pool.executable_map k ≡ none
      → WellPlaced pool
      → Small p (chunk_calls pool k)
      → find_or_compile disasm none pool k ≡ ok (pool', c)
      → Found pool pool' k c
  unfolding find_or_compile compile_chunk insert_chunk
  compiled-Found fresh pool pool' k c absent w small h =
      let ((done, chunk), e1, h1) = ok-bind (compile_chunk disasm pool k) _ (pool', c) h in
      let (x86_idxs, _, h2) =
        ok-bind (compile_entries_of pool.executable_map k (disasm k) new_assembler).0 _
          (done, chunk) e1 in
      let added =
        finalize_chunk-Added fresh pool done (chunk_calls pool k) instrs_per_chunk x86_idxs chunk
          w.regions small h2 in
      subst (λ (r : ExecPool × CompiledChunk). Found pool r.0 k r.1) (ok-injective h1)
        (insert-Found pool done k chunk w absent added)

  pub find_or_compile-Found :
      Fresh p
      → (o : Option CompiledChunk) (pool pool' : ExecPool) (k : ℕ) (c : CompiledChunk)
      → get_chunk pool.executable_map k ≡ o
      → WellPlaced pool
      → Small p (chunk_calls pool k)
      → find_or_compile disasm o pool k ≡ ok (pool', c)
      → Found pool pool' k c
  unfolding find_or_compile
  find_or_compile-Found fresh (some cached) pool pool' k c key w small h =
      subst (λ (r : ExecPool × CompiledChunk). Found pool r.0 k r.1) (ok-injective h)
        (record { placed = w; cached = key; same_ranges = refl; compiled = inl refl })
  find_or_compile-Found fresh none pool pool' k c key w small h =
      compiled-Found fresh pool pool' k c key w small h

  -- `get_exec` keeps a pool in order: where `mmap` gives regions that are not null and do not overlap
  -- those of the pool, and the code of the chunk at the address fits in one, a call that returns
  -- leaves chunks that do not overlap, all inside the regions; and the same call on the pool that it
  -- leaves returns the same address and changes nothing.
  pub get_exec-WellPlaced :
      Fresh p
      → (pool pool' : ExecPool) (addr exec_addr : ℕ) → WellPlaced pool
      → Small p (chunk_calls pool (chunk_start addr))
      → get_exec disasm pool addr ≡ ok (pool', exec_addr)
      → WellPlaced pool' × (get_exec disasm pool' addr ≡ ok (pool', exec_addr))
  unfolding get_exec
  get_exec-WellPlaced fresh pool pool' addr exec_addr w small h =
      elim (Bool-cases (is_executable pool addr)) [
        | inr native ↦
            subst
              (λ (r : ExecPool × ℕ). WellPlaced r.0 × (get_exec disasm r.0 addr ≡ ok (r.0, r.1)))
              (ok-injective (rw native at h)) (w, rw native refl)
        | inl emulated ↦
            (let ((done, c), e1, h1) =
                ok-bind
                  (find_or_compile disasm (get_chunk pool.executable_map (chunk_start addr)) pool
                    (chunk_start addr))
                  _ (pool', exec_addr) (rw emulated at h) in
              let (byte_idx, e2, h2) =
                ok-bind (index c.instr_map (chunk_offset addr / 4)) _ (pool', exec_addr) h1 in
              let found =
                find_or_compile-Found fresh _ pool done (chunk_start addr) c refl w small e1 in
              subst
                (λ (r : ExecPool × ℕ). WellPlaced r.0 × (get_exec disasm r.0 addr ≡ ok (r.0, r.1)))
                (ok-injective h2)
                (
                  found.placed,
                  again done addr c byte_idx
                      (same_ranges-is_executable pool done addr found.same_ranges ∙ emulated)
                      found.cached e2,
                ))
      ]

  -- A call of `get_exec` copies the code of one chunk of the pool that it leaves, or none.
  pub get_exec-copies :
      Fresh p
      → (pool pool' : ExecPool) (addr exec_addr : ℕ) → WellPlaced pool
      → Small p (chunk_calls pool (chunk_start addr))
      → get_exec disasm pool addr ≡ ok (pool', exec_addr)
      → OneCopy pool pool'
  unfolding get_exec
  get_exec-copies fresh pool pool' addr exec_addr w small h =
      elim (Bool-cases (is_executable pool addr)) [
        | inr native ↦
            subst (λ (r : ExecPool × ℕ). OneCopy pool r.0) (ok-injective (rw native at h))
              (inl refl)
        | inl emulated ↦
            (let ((done, c), e1, h1) =
                ok-bind
                  (find_or_compile disasm (get_chunk pool.executable_map (chunk_start addr)) pool
                    (chunk_start addr))
                  _ (pool', exec_addr) (rw emulated at h) in
              let (byte_idx, e2, h2) =
                ok-bind (index c.instr_map (chunk_offset addr / 4)) _ (pool', exec_addr) h1 in
              let found =
                find_or_compile-Found fresh _ pool done (chunk_start addr) c refl w small e1 in
              subst (λ (r : ExecPool × ℕ). OneCopy pool r.0) (ok-injective h2)
                (elim found.compiled [
                  | inl same ↦ inl same
                  | inr copied ↦ inr (chunk_start addr, c, found.cached, copied)
                ]))
      ]
