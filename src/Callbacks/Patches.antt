-- ===== src/Callbacks/Patches.antt =====
-- What the callbacks of src/runner/callbacks.rs leave: the pool in order, and a jump in place of the
-- call.
use mathlib.Core.Path.{subst}
use xob.Base.{
  ℕ, ◌+◌, ◌≤◌, ◌<◌, ◌≡◌, ◌⊎◌, inl, inr, refl, sym, ◌∙◌, arith, List, [], ◌∷◌, Option, some, length,
  get_elem?, ◌==◌, Bool-cases, append_assoc,
}
use xob.Outcome.{ok, unwrap, index, ok-bind, ok-unwrap, ok-injective, ◌>>=◌}
use xob.Memory.{Memory, read_u32, write_bytes, write_bytes-inside, write_bytes-outside}
use xob.Vendor.{Vendor}
use xob.Vendor.Bad64
use xob.Vendor.Iced.{Call, Mnemonic, Arg, rax}
use xob.InstrUtils.{label_target}
use xob.ExecPool.{ExecPool, Callbacks, chunk_start}
use xob.Branch.JumpCode.{jump_code}
use xob.Compiler.{Decoded}
use xob.Finalize.{Platform, Encoded}
use xob.Finalize.Placement.{Fresh, Small}
use xob.Machine.{Accepting, Emits}
use xob.Machine.Emit.{asm-Emits}
use xob.Runner.{get_exec, from_exec, new_assembler}
use xob.Runner.Cache.{WellPlaced}
use xob.Runner.GetExec.{OneCopy, get_exec-copies, chunk_calls, get_exec-WellPlaced}
use xob.Callbacks.{
  new_code, copy_code, call_before, label_index, place_jump, write_jump, jump_on, rewrite_branch_at,
  rewrite_branch,
}

-- `mov rax, dest` and `jmp rax`.
abbrev pub jump_calls : ℕ → List Call
jump_calls dest =
    Call.asm Mnemonic.mov (Arg.reg rax ∷ Arg.imm dest ∷ [])
    ∷ Call.asm Mnemonic.jmp (Arg.reg rax ∷ [])
    ∷ []

module _ ⦃v : Vendor⦄ ⦃p : Platform⦄ (acc : Accepting v) where
  jump_code-run : (dest : ℕ) → Emits (jump_code dest) new_assembler (jump_calls dest)
  unfolding jump_code
  jump_code-run dest = simp (asm-Emits acc, append_assoc)

  write_jump-lem :
      (m : Memory) (at dest : ℕ)
      → write_jump m at dest
        ≡ (unwrap (p.encode (jump_calls dest) at) >>= λ code. place_jump m at code)
  unfolding write_jump
  write_jump-lem m at dest = rw (jump_code-run dest) refl

  pub write_jump-returns :
      (m : Memory) (at dest : ℕ) (code : Encoded)
      → p.encode (jump_calls dest) at ≡ some code
      → length code.code_buffer ≡ 12
      → write_jump m at dest ≡ ok (write_bytes m at code.code_buffer)
  unfolding place_jump
  write_jump-returns m at dest code encoded whole =
      rw (write_jump-lem m at dest, encoded, whole) refl

  write_jump-code :
      (m m' : Memory) (at dest : ℕ)
      → write_jump m at dest ≡ ok m'
      → (code : Encoded) × (p.encode (jump_calls dest) at ≡ some code)
        × (length code.code_buffer ≡ 12)
        × (write_bytes m at code.code_buffer ≡ m')
  unfolding place_jump
  write_jump-code m m' at dest e =
      let (code, e1, e2) =
        ok-bind (unwrap (p.encode (jump_calls dest) at)) _ m'
          (sym (write_jump-lem m at dest) ∙ e) in
      elim (Bool-cases (length code.code_buffer == 12)) [
        | inl whole ↦ (code, ok-unwrap _ _ e1, ground (arith, whole), ok-injective (rw whole at e2))
        | inr other ↦ let stuck = rw other at e2 in cc
      ]

-- An address that no copy is made to.
abbrev pub OutsideCopies : ℕ → List (ℕ × List ℕ) → Type 0
OutsideCopies x [] = Unit {0}
OutsideCopies x ((target, bytes) ∷ copies) =
    ((x < target) ⊎ (target + length bytes ≤ x)) × OutsideCopies x copies

copy_code-outside :
    (copies : List (ℕ × List ℕ)) (m : Memory) (x : ℕ)
    → OutsideCopies x copies
    → copy_code copies m x ≡ m x
unfolding copy_code
copy_code-outside [] m x out = refl
copy_code-outside ((target, bytes) ∷ copies) m x (here, out) =
    write_bytes-outside (copy_code copies m) target bytes x here ∙ copy_code-outside copies m x out

-- After a call that patched the code at `call_ptr` for the target: the pool is in order, gives the
-- same address for the target again, there is a jump to it in place of the 12 bytes of the call, and
-- elsewhere memory is as it was with the code copied that has been compiled for the target.
pub record Patched ⦃v : Vendor⦄ ⦃cb : Callbacks⦄ ⦃p : Platform⦄ (disasm : ℕ → List Decoded)
    (m m' : Memory) (pool pool' : ExecPool) (call_ptr target exec_ptr : ℕ) : Type 0 where
  pub placed : WellPlaced pool'
  pub compiled : OneCopy pool pool'
  pub again : get_exec disasm pool' target ≡ ok (pool', exec_ptr)
  pub code : Encoded
  pub encoded : p.encode (jump_calls exec_ptr) call_ptr ≡ some code
  pub inside : (i b : ℕ) → get_elem? code.code_buffer i ≡ some b → m' (call_ptr + i) ≡ b
  pub whole : length code.code_buffer ≡ 12
  pub copied :
      (x : ℕ) → (x < call_ptr) ⊎ (call_ptr + 12 ≤ x) → m' x ≡ copy_code (new_code pool pool') m x
  pub outside :
      (x : ℕ)
      → (x < call_ptr) ⊎ (call_ptr + 12 ≤ x)
      → OutsideCopies x (new_code pool pool')
      → m' x ≡ m x

module _ ⦃v : Vendor⦄ ⦃cb : Callbacks⦄ ⦃p : Platform⦄ (acc : Accepting v) (fresh : Fresh p)
    (disasm : ℕ → List Decoded) where
  write_jump-Patched :
      (m m' : Memory) (pool pool' : ExecPool) (call_ptr target exec_ptr : ℕ)
      → WellPlaced pool'
      → OneCopy pool pool'
      → get_exec disasm pool' target ≡ ok (pool', exec_ptr)
      → write_jump (copy_code (new_code pool pool') m) call_ptr exec_ptr ≡ ok m'
      → Patched disasm m m' pool pool' call_ptr target exec_ptr
  write_jump-Patched m m' pool pool' call_ptr target exec_ptr placed compiled again e =
      let copied : Memory = copy_code (new_code pool pool') m in
      let (code, encoded, whole, patched) = write_jump-code acc copied m' call_ptr exec_ptr e in
      let elsewhere : (x : ℕ) → (x < call_ptr) ⊎ (call_ptr + 12 ≤ x) → m' x ≡ copied x = λ x out.
        subst (λ (t : Memory). t x ≡ copied x) patched
          (write_bytes-outside copied call_ptr code.code_buffer x (rw whole out)) in
      record {
        placed = placed;
        compiled = compiled;
        again = again;
        code = code;
        encoded = encoded;
        inside = λ i b there.
            subst (λ (t : Memory). t (call_ptr + i) ≡ b) patched
              (write_bytes-inside copied call_ptr code.code_buffer i b there);
        whole = whole;
        copied = elsewhere;
        outside =
            λ x out apart. elsewhere x out ∙ copy_code-outside (new_code pool pool') m x apart;
      }

  module _ (decode : ℕ → ℕ → Option Bad64.Instruction) where
    jump_on-Patched :
        (m m' : Memory) (pool pool' : ExecPool) (call_ptr target exec_ptr : ℕ)
        → WellPlaced pool
        → Small p (chunk_calls disasm pool (chunk_start target))
        → jump_on disasm decode m pool call_ptr target ≡ ok (m', pool', exec_ptr)
        → Patched disasm m m' pool pool' call_ptr target exec_ptr
    unfolding jump_on
    jump_on-Patched m m' pool pool' call_ptr target exec_ptr w small e =
        let ((done, ptr), e1, e2) =
          ok-bind (get_exec disasm pool target) _ (m', pool', exec_ptr) e in
        let (m1, e3, e4) =
          ok-bind (write_jump (copy_code (new_code pool done) m) call_ptr ptr) _
            (m', pool', exec_ptr) e2 in
        let (placed, again) = get_exec-WellPlaced disasm fresh pool done target ptr w small e1 in
        subst (λ (r : Memory × ExecPool × ℕ). Patched disasm m r.0 pool r.1 call_ptr target r.2)
          (ok-injective e4)
          (write_jump-Patched m m1 pool done call_ptr target ptr placed
            (get_exec-copies disasm fresh pool done target ptr w small e1) again e3)

    -- Where iced refuses nothing, `mmap` gives regions that are not null and do not overlap those of the
    -- pool, and the code of every chunk fits in one: `rewrite_branch`, where it returns on a pool in
    -- order, has found the branch whose code made the call, and returns the address of the code of the
    -- branch's label. The pool that it leaves is in order and gives that address for the label again; the
    -- 12 bytes of the call are a jump to it. The rest of memory is as it was, with the code copied to it
    -- that was compiled for the label, which is none or that of one chunk of the new pool; outside the
    -- copies it has not changed.
    pub rewrite_branch-Patched :
        (m m' : Memory) (pool pool' : ExecPool) (ret_ptr exec_ptr : ℕ)
        → WellPlaced pool
        → ((k : ℕ) → Small p (chunk_calls disasm pool k))
        → rewrite_branch disasm decode m pool ret_ptr ≡ ok (m', pool', exec_ptr)
        → (arm_ptr : ℕ) × (branch : Bad64.Instruction) × (i : ℕ) × (label : Bad64.Operand)
          × (target : ℕ) × (from_exec pool.executable_map (call_before ret_ptr) ≡ ok arm_ptr)
          × (decode (read_u32 m arm_ptr) arm_ptr ≡ some branch)
          × (label_index branch.op ≡ some i)
          × (index branch.operands i ≡ ok label)
          × (label_target label ≡ ok target)
          × Patched disasm m m' pool pool' (call_before ret_ptr) target exec_ptr
    unfolding rewrite_branch rewrite_branch_at
    rewrite_branch-Patched m m' pool pool' ret_ptr exec_ptr w small e =
        let r : Memory × ExecPool × ℕ = (m', pool', exec_ptr) in
        let (arm_ptr, e1, h1) =
          ok-bind (from_exec pool.executable_map (call_before ret_ptr)) _ r e in
        let (branch, e2, h2) = ok-bind (unwrap (decode (read_u32 m arm_ptr) arm_ptr)) _ r h1 in
        let (i, e3, h3) = ok-bind (unwrap (label_index branch.op)) _ r h2 in
        let (label, e4, h4) = ok-bind (index branch.operands i) _ r h3 in
        let (target, e5, h5) = ok-bind (label_target label) _ r h4 in
        (
          arm_ptr,
          branch,
          i,
          label,
          target,
          e1,
          ok-unwrap _ _ e2,
          ok-unwrap _ _ e3,
          e4,
          e5,
          jump_on-Patched m m' pool pool' (call_before ret_ptr) target exec_ptr w
              (small (chunk_start target)) h5,
        )
