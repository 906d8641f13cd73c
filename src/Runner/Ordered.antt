-- ===== src/Runner/Ordered.antt =====
-- Every chunk that `get_exec` of src/runner.rs compiles has a map that never falls; so the way back
-- by `from_exec` needs no hypothesis on the chunk.
use mathlib.Core.Path.{subst}
use xob.Base.{ℕ, ◌+◌, ◌*◌, ◌/◌, ◌≤◌, ◌≡◌, ◌∙◌, sym, refl, inl, inr, true, Option, none, some, List}
use xob.Outcome.{ok, index, ok-bind, ok-injective}
use xob.Vendor.{Vendor}
use xob.ExecPool.{
  ExecPool, ChunkMap, CompiledChunk, Callbacks, get_chunk, insert_chunk, is_executable, chunk_start,
  chunk_offset,
}
use xob.Compiler.{Decoded, compile_entries_of, instrs_per_chunk}
use xob.Compiler.Indices.{compile_entries_of-Indexed}
use xob.Finalize.{Platform}
use xob.Finalize.Placement.{Fresh, Small}
use xob.Finalize.Rising.{InOrder, Ordered, index-Entry, finalize_chunk-Ordered}
use xob.Runner.{get_exec, find_or_compile, compile_chunk, new_assembler, from_exec}
use xob.Runner.Cache.{WellPlaced, get_chunk-cons, finalize_chunk-Added}
use xob.Runner.FromExec.{from_exec-get_exec}
use xob.Runner.Offsets.{Entry}
use xob.Runner.GetExec.{chunk_calls, same_ranges-is_executable, find_or_compile-Found}

-- Every chunk of the map is in order.
abbrev pub AllOrdered : ChunkMap → Type 0
AllOrdered m = (k : ℕ) (c : CompiledChunk) → get_chunk m k ≡ some c → Ordered c

-- The invariant of a pool that `get_exec` alone has filled.
pub record InOrderPool (pool : ExecPool) : Type 0 where
  pub placed : WellPlaced pool
  pub ordered : AllOrdered pool.executable_map

-- Where the code of an address stands: the offset of its instruction, and the last instruction of
-- its chunk with that offset.
pub record Traced (pool : ExecPool) (addr exec_addr : ℕ) : Type 0 where
  pub chunk : CompiledChunk
  pub offset : ℕ
  pub last : ℕ
  pub cached : get_chunk pool.executable_map (chunk_start addr) ≡ some chunk
  pub starts : Entry chunk.instr_map (chunk_offset addr / 4) offset
  pub gives : exec_addr ≡ chunk.addr + offset
  pub shares : Entry chunk.instr_map last offset
  pub not_before : chunk_offset addr / 4 ≤ last
  pub back : from_exec pool.executable_map exec_addr ≡ ok (chunk_start addr + last * 4)

insert-AllOrdered :
    (m m' : ChunkMap) (k : ℕ) (c : CompiledChunk)
    → m' ≡ m
    → AllOrdered m
    → Ordered c
    → AllOrdered (insert_chunk m' k c)
unfolding insert_chunk
insert-AllOrdered m m' k c same all here j d h = elim (get_chunk-cons m' k j c d h) [
  | inl e ↦ rw (sym e) here
  | inr old ↦ all j d (rw same at old)
]

module _ ⦃v : Vendor⦄ ⦃cb : Callbacks⦄ ⦃p : Platform⦄ (disasm : ℕ → List Decoded)
    (order : InOrder p) (fresh : Fresh p) where
  compile_chunk-Ordered :
      (pool pool' : ExecPool) (k : ℕ) (c : CompiledChunk)
      → WellPlaced pool
      → Small p (chunk_calls disasm pool k)
      → compile_chunk disasm pool k ≡ ok (pool', c)
      → Ordered c × (pool'.executable_map ≡ pool.executable_map)
  unfolding compile_chunk
  compile_chunk-Ordered pool pool' k c w small h =
      let (xs, e1, h1) =
        ok-bind (compile_entries_of pool.executable_map k (disasm k) new_assembler).0 _ (pool', c)
          h in
      let added =
        finalize_chunk-Added fresh pool pool' (chunk_calls disasm pool k) instrs_per_chunk xs c
          w.regions small h1 in
      (
        finalize_chunk-Ordered order pool pool' (chunk_calls disasm pool k) instrs_per_chunk xs c
            (compile_entries_of-Indexed pool.executable_map k (disasm k) xs new_assembler e1) h1,
        added.same_map,
      )

  find_or_compile-AllOrdered :
      (o : Option CompiledChunk) (pool pool' : ExecPool) (k : ℕ) (c : CompiledChunk)
      → InOrderPool pool
      → Small p (chunk_calls disasm pool k)
      → find_or_compile disasm o pool k ≡ ok (pool', c)
      → AllOrdered pool'.executable_map
  unfolding find_or_compile
  find_or_compile-AllOrdered (some cached) pool pool' k c w small h =
      subst (λ (r : ExecPool × CompiledChunk). AllOrdered r.0.executable_map) (ok-injective h)
        w.ordered
  find_or_compile-AllOrdered none pool pool' k c w small h =
      let ((done, chunk), e1, h1) = ok-bind (compile_chunk disasm pool k) _ (pool', c) h in
      let (here, same) = compile_chunk-Ordered pool done k chunk w.placed small e1 in
      subst (λ (r : ExecPool × CompiledChunk). AllOrdered r.0.executable_map) (ok-injective h1)
        (insert-AllOrdered pool.executable_map done.executable_map k chunk same w.ordered here)

  traced :
      (pool : ExecPool) (addr o : ℕ) (c : CompiledChunk)
      → InOrderPool pool
      → is_executable pool addr ≡ true
      → get_chunk pool.executable_map (chunk_start addr) ≡ some c
      → Entry c.instr_map (chunk_offset addr / 4) o
      → Traced pool addr (c.addr + o)
  traced pool addr o c w emulated cached entry =
      let here = w.ordered (chunk_start addr) c cached in
      let (j, _, back, last, le) = from_exec-get_exec disasm pool addr o w.placed.apart (record {
        chunk = c;
        executable = emulated;
        cached = cached;
        entry = entry;
        inside = here.inside _ o entry;
        rising = here.rising;
      }) in
      record {
        chunk = c;
        offset = o;
        last = j;
        cached = cached;
        starts = entry;
        gives = refl;
        shares = last;
        not_before = le;
        back = back;
      }

  -- `get_exec` and the way back: where the encoder lists its offsets in order, `mmap` gives regions
  -- that are not null and do not overlap those of the pool, and the code of the chunk fits in one, a
  -- call for an emulated address that returns leaves a pool in order; the address returned is the
  -- start of the code of its instruction, and `from_exec` takes it to the last instruction of the chunk whose code starts
  -- there, which is not before the address.
  pub get_exec-Traced :
      (pool pool' : ExecPool) (addr exec_addr : ℕ)
      → InOrderPool pool
      → Small p (chunk_calls disasm pool (chunk_start addr))
      → is_executable pool addr ≡ true
      → get_exec disasm pool addr ≡ ok (pool', exec_addr)
      → InOrderPool pool' × Traced pool' addr exec_addr
  unfolding get_exec
  get_exec-Traced pool pool' addr exec_addr w small emulated h =
      let ((done, c), e1, h1) =
        ok-bind
          (find_or_compile disasm (get_chunk pool.executable_map (chunk_start addr)) pool
            (chunk_start addr))
          _ (pool', exec_addr) (rw emulated at h) in
      let (o, e2, h2) =
        ok-bind (index c.instr_map (chunk_offset addr / 4)) _ (pool', exec_addr) h1 in
      let found =
        find_or_compile-Found disasm fresh _ pool done (chunk_start addr) c refl w.placed small
          e1 in
      let kept : InOrderPool done = record {
        placed = found.placed;
        ordered = find_or_compile-AllOrdered _ pool done (chunk_start addr) c w small e1;
      } in
      subst (λ (r : ExecPool × ℕ). InOrderPool r.0 × Traced r.0 addr r.1) (ok-injective h2)
        (
          kept,
          traced done addr o c kept
              (same_ranges-is_executable pool done addr found.same_ranges ∙ emulated) found.cached
              (index-Entry c.instr_map (chunk_offset addr / 4) o e2),
        )
