-- ===== src/InstrUtils/Codes.antt =====
-- The code tables of src/runner/compiler/instr_utils.rs: for each operation, its encodings by
-- register class and operand order.
use xob.Outcome.{Outcome, ok, panic}
use xob.Vendor.Iced.{Code}
use xob.Register.{RegClass}

pub record OpRrCodes : Type 0 where
  pub r32_rm32 : Code
  pub rm32_r32 : Code
  pub r64_rm64 : Code
  pub rm64_r64 : Code

pub record OpRiCodes : Type 0 where
  pub rm32_imm32 : Code
  pub rm64_imm32 : Code

unfoldable pub r_rm : OpRrCodes → RegClass → Outcome Code
r_rm codes RegClass.gpr32 = ok codes.r32_rm32
r_rm codes RegClass.gpr64 = ok codes.r64_rm64
r_rm codes _ = panic

unfoldable pub for_class : OpRiCodes → RegClass → Outcome Code
for_class codes RegClass.gpr32 = ok codes.rm32_imm32
for_class codes RegClass.gpr64 = ok codes.rm64_imm32
for_class codes _ = panic

abbrev pub mov_rr_codes : OpRrCodes
mov_rr_codes = record {
  r32_rm32 = Code.mov_r32_rm32;
  rm32_r32 = Code.mov_rm32_r32;
  r64_rm64 = Code.mov_r64_rm64;
  rm64_r64 = Code.mov_rm64_r64;
}

abbrev pub add_rr_codes : OpRrCodes
add_rr_codes = record {
  r32_rm32 = Code.add_r32_rm32;
  rm32_r32 = Code.add_rm32_r32;
  r64_rm64 = Code.add_r64_rm64;
  rm64_r64 = Code.add_rm64_r64;
}

abbrev pub sub_rr_codes : OpRrCodes
sub_rr_codes = record {
  r32_rm32 = Code.sub_r32_rm32;
  rm32_r32 = Code.sub_rm32_r32;
  r64_rm64 = Code.sub_r64_rm64;
  rm64_r64 = Code.sub_rm64_r64;
}

abbrev pub cmp_rr_codes : OpRrCodes
cmp_rr_codes = record {
  r32_rm32 = Code.cmp_r32_rm32;
  rm32_r32 = Code.cmp_rm32_r32;
  r64_rm64 = Code.cmp_r64_rm64;
  rm64_r64 = Code.cmp_rm64_r64;
}

abbrev pub and_rr_codes : OpRrCodes
and_rr_codes = record {
  r32_rm32 = Code.and_r32_rm32;
  rm32_r32 = Code.and_rm32_r32;
  r64_rm64 = Code.and_r64_rm64;
  rm64_r64 = Code.and_rm64_r64;
}

abbrev pub or_rr_codes : OpRrCodes
or_rr_codes = record {
  r32_rm32 = Code.or_r32_rm32;
  rm32_r32 = Code.or_rm32_r32;
  r64_rm64 = Code.or_r64_rm64;
  rm64_r64 = Code.or_rm64_r64;
}

abbrev pub xor_rr_codes : OpRrCodes
xor_rr_codes = record {
  r32_rm32 = Code.xor_r32_rm32;
  rm32_r32 = Code.xor_rm32_r32;
  r64_rm64 = Code.xor_r64_rm64;
  rm64_r64 = Code.xor_rm64_r64;
}

abbrev pub mov_ri_codes : OpRiCodes
mov_ri_codes = record { rm32_imm32 = Code.mov_rm32_imm32; rm64_imm32 = Code.mov_rm64_imm32 }

abbrev pub add_ri_codes : OpRiCodes
add_ri_codes = record { rm32_imm32 = Code.add_rm32_imm32; rm64_imm32 = Code.add_rm64_imm32 }

abbrev pub sub_ri_codes : OpRiCodes
sub_ri_codes = record { rm32_imm32 = Code.sub_rm32_imm32; rm64_imm32 = Code.sub_rm64_imm32 }

abbrev pub cmp_ri_codes : OpRiCodes
cmp_ri_codes = record { rm32_imm32 = Code.cmp_rm32_imm32; rm64_imm32 = Code.cmp_rm64_imm32 }

abbrev pub and_ri_codes : OpRiCodes
and_ri_codes = record { rm32_imm32 = Code.and_rm32_imm32; rm64_imm32 = Code.and_rm64_imm32 }

abbrev pub or_ri_codes : OpRiCodes
or_ri_codes = record { rm32_imm32 = Code.or_rm32_imm32; rm64_imm32 = Code.or_rm64_imm32 }

abbrev pub shl_ri_codes : OpRiCodes
shl_ri_codes = record { rm32_imm32 = Code.shl_rm32_imm8; rm64_imm32 = Code.shl_rm64_imm8 }
