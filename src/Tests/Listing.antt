-- ===== src/Tests/Listing.antt =====
-- The listing of a chunk of two entries whose code has an instruction at 9000 and two at 9001.
use xob.Base.{ℕ, zero, suc, ◌≤◌, ◌<◌, ◌≡◌, refl, arith, Bool, List, [], ◌∷◌, none}
use xob.Outcome.{ok}
use xob.ExecPool.{CompiledChunk}
use xob.Compiler.Dump.{X86, Line, dump_translation}
use xob.Compiler.Dump.Columns.{Rest}
use xob.Compiler.Dump.Ends.{Decodes, HasOffsets, dump_translation-Listed}

abbrev chunk : CompiledChunk
chunk = record { instr_map = 0 ∷ 1 ∷ []; addr = 9000; len = 3 }

-- An instruction at each byte.
abbrev decode : ℕ → X86
decode zero = record { ip = 9000; is_invalid = Bool.false }
decode (suc zero) = record { ip = 9001; is_invalid = Bool.false }
decode (suc (suc zero)) = record { ip = 9002; is_invalid = Bool.false }
decode (suc (suc (suc n))) = record { ip = 9003; is_invalid = Bool.true }

decode-starts : (n : ℕ) → 9000 ≤ (decode n).ip
decode-starts zero = omega arith
decode-starts (suc zero) = omega arith
decode-starts (suc (suc zero)) = omega arith
decode-starts (suc (suc (suc n))) = omega arith

decode-within : (n : ℕ) → (decode n).ip ≤ 9003
decode-within zero = omega arith
decode-within (suc zero) = omega arith
decode-within (suc (suc zero)) = omega arith
decode-within (suc (suc (suc n))) = omega arith

decode-advances : (n : ℕ) → (decode n).ip < 9003 → (decode n).ip < (decode (suc n)).ip
decode-advances zero lt = omega arith
decode-advances (suc zero) lt = omega arith
decode-advances (suc (suc zero)) lt = omega arith
decode-advances (suc (suc (suc n))) lt = absurd (omega arith)

decode-ended : (n : ℕ) → 9003 ≤ (decode n).ip → (decode n).is_invalid ≡ Bool.true
decode-ended zero ge = absurd (omega arith)
decode-ended (suc zero) ge = absurd (omega arith)
decode-ended (suc (suc zero)) ge = absurd (omega arith)
decode-ended (suc (suc (suc n))) ge = refl

decode-Decodes : Decodes decode chunk
decode-Decodes = record {
  starts = decode-starts;
  within = decode-within;
  advances = decode-advances;
  ended = decode-ended;
}

chunk-HasOffsets : HasOffsets chunk 2
chunk-HasOffsets zero lt = (0, refl, omega arith)
chunk-HasOffsets (suc zero) lt = (1, refl, omega arith)
chunk-HasOffsets (suc (suc i)) lt = absurd (omega arith)

dump_translation-Listed_example :
    (lines : List Line) × (dump_translation decode 512 chunk 4 (none ∷ none ∷ []) ≡ ok lines)
    × Rest decode 512 chunk 0 ((512, none) ∷ (516, none) ∷ []) lines
dump_translation-Listed_example =
    dump_translation-Listed 4 512 decode chunk none (none ∷ []) decode-Decodes chunk-HasOffsets
      (omega arith)
