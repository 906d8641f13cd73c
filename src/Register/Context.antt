-- ===== src/Register/Context.antt =====
-- The layout of `ExecCtx` (src/runner.rs, `repr(C)`): 18 general slots of 8 bytes, 17 vector slots
-- of 16 bytes, then `param` and `shadow_sp`.
use xob.Base.{ℕ, ◌+◌, ◌*◌, ◌-◌, ◌/◌}

abbrev pub indirect_regs_len : ℕ
indirect_regs_len = 18

abbrev pub indirect_fp_regs_len : ℕ
indirect_fp_regs_len = 17

-- A `repr(C)` field starts at the next multiple of its alignment.
abbrev pub field_offset : ℕ → ℕ → ℕ
field_offset end alignment = (end + alignment - 1) / alignment * alignment

abbrev pub indirect_fp_regs_offset : ℕ
indirect_fp_regs_offset = field_offset (indirect_regs_len * 8) 16

abbrev pub param_offset : ℕ
param_offset = field_offset (indirect_fp_regs_offset + indirect_fp_regs_len * 16) 8

abbrev pub shadow_sp_offset : ℕ
shadow_sp_offset = field_offset (param_offset + 8) 8
