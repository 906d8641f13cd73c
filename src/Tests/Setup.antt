-- ===== src/Tests/Setup.antt =====
-- A concrete numbering of the registers, an iced that accepts everything, and an encoder that spends
-- one byte on each call.
use xob.Base.{
  ℕ, zero, suc, ◌+◌, ◌-◌, ◌≤◌, ◌≡◌, refl, arith, true, ◌&&◌, Option, none, some, List, [], ◌∷◌, leb,
  ◌==◌, if◌then◌else◌, inl, get_elem?,
}
use xob.Vendor.{Vendor}
use xob.Vendor.Laws.{ArmLaws, RegisterLaws}
use xob.Vendor.Bad64.{Reg}
use xob.Vendor.Iced.{Register, Call}
use xob.Machine.{Accepting}
use xob.ExecPool.{ExecPool, Callbacks, executable_alloc_size}
use xob.Finalize.{Platform}
use xob.Finalize.Placement.{Fresh}

abbrev pub number : Reg → ℕ
number (Reg.w_reg n) = n
number Reg.wzr = 31
number Reg.wsp = 32
number (Reg.x_reg n) = 100 + n
number Reg.xzr = 131
number Reg.sp = 132
number (Reg.v_reg n) = 200 + n
number (Reg.b_reg n) = 300 + n
number (Reg.h_reg n) = 400 + n
number (Reg.s_reg n) = 500 + n
number (Reg.d_reg n) = 600 + n
number (Reg.q_reg n) = 700 + n
number (Reg.other n) = 1000 + n

abbrev pub numbered : ℕ → Option Reg
numbered n =
    if leb 100 n && leb n 130
    then some (Reg.x_reg (n - 100))
    else if n == 131
    then some Reg.xzr
    else if leb 700 n && leb n 731
    then some (Reg.q_reg (n - 700))
    else none

abbrev pub hardware_number : Register → ℕ
hardware_number (Register.r8 n) = if leb n 3 then n else n + 4
hardware_number (Register.r16 n) = 20 + n
hardware_number (Register.r32 n) = 36 + n
hardware_number (Register.r64 n) = 52 + n
hardware_number (Register.xmm n) = 70 + n
hardware_number Register.none = 200
hardware_number (Register.other n) = 300 + n

abbrev pub hardware_numbered : ℕ → Option Register
hardware_numbered n =
    if leb n 3
    then some (Register.r8 n)
    else if leb 8 n && leb n 19
    then some (Register.r8 (n - 4))
    else if leb 20 n && leb n 35
    then some (Register.r16 (n - 20))
    else if leb 36 n && leb n 51
    then some (Register.r32 (n - 36))
    else if leb 52 n && leb n 67
    then some (Register.r64 (n - 52))
    else none

abbrev pub full : Register → Register
full (Register.r8 n) = Register.r64 n
full (Register.r16 n) = Register.r64 n
full (Register.r32 n) = Register.r64 n
full r = r

abbrev pub full32 : Register → Register
full32 (Register.r8 n) = Register.r32 n
full32 (Register.r16 n) = Register.r32 n
full32 (Register.r64 n) = Register.r32 n
full32 r = r

abbrev pub vendor : Vendor
vendor = record {
  reg_number = number;
  reg_from = numbered;
  register_number = hardware_number;
  register_from = hardware_numbered;
  full_register = full;
  full_register32 = full32;
  constructs = λ _. true;
  accepts = λ _ _. true;
}

pub accepting : Accepting vendor
accepting = record { constructs_all = λ _. refl; accepts_all = λ _ _. refl }

pub arm_laws : ArmLaws vendor
arm_laws = record {
  w_number = λ n h. omega arith;
  wzr_number = refl;
  wsp_number = refl;
  x_number = λ n h. omega arith;
  xzr_number = refl;
  sp_number = refl;
  v_number = λ n h. omega arith;
  b_number = λ n h. omega arith;
  h_number = λ n h. omega arith;
  s_number = λ n h. omega arith;
  d_number = λ n h. omega arith;
  q_number = λ n h. omega arith;
  w_below_x = omega arith;
  x_below_v = omega arith;
  v_below_b = omega arith;
  b_below_h = omega arith;
  h_below_s = omega arith;
  s_below_d = omega arith;
  d_below_q = omega arith;
  x_from = λ n h. ground arith;
  xzr_from = refl;
  q_from = λ n h. ground arith;
}

pub register_laws : RegisterLaws vendor
register_laws = record {
  r64_number = λ n h. omega arith;
  r16_from = λ n h. ground arith;
  r8_low_from = λ n h. ground arith;
  r8_from = λ n h h'. ground arith;
  full32 = λ n h. refl;
  full_of_r64 = λ n h. refl;
  full_of_r32 = λ n h. refl;
}

abbrev pub callbacks : Callbacks
callbacks = record {
  invalid_arm_instr = 1;
  unimplemented_arm_instr_landing_pad = 2;
  rewrite_branch_landing_pad = 3;
  indirect_jump_landing_pad = 4;
  end_of_chunk_landing_pad = 5;
}

-- Consecutive offsets, from `o` on.
abbrev offsets_from : ℕ → List Call → List ℕ
offsets_from o [] = []
offsets_from o (c ∷ cs) = o ∷ offsets_from (o + 1) cs

abbrev pub one_byte_each : List Call → List ℕ
one_byte_each [] = []
one_byte_each (c ∷ cs) = 144 ∷ one_byte_each cs

abbrev pub sum : List ℕ → ℕ
sum [] = 0
sum (r ∷ rs) = r + sum rs

abbrev pub nops : ℕ → List ℕ
nops zero = []
nops (suc n) = 144 ∷ nops n

-- A region above all that the pool has.
abbrev pub platform : Platform
platform = record {
  encode = λ instrs addr. some (record {
    code_buffer = one_byte_each instrs;
    new_instruction_offsets = offsets_from 0 instrs;
  });
  mmap = λ pool. some (sum pool.fully_used_allocs + pool.current_alloc + executable_alloc_size);
}

below_sum : (rs : List ℕ) (i r : ℕ) → get_elem? rs i ≡ some r → r ≤ sum rs
below_sum [] i r h = cc
below_sum (x ∷ xs) zero r h = ground arith
below_sum (x ∷ xs) (suc i) r h = let le = below_sum xs i r h in omega arith

region_above :
    (pool : ExecPool) (r : ℕ)
    → platform.mmap pool ≡ some r
    → r ≡ sum pool.fully_used_allocs + pool.current_alloc + executable_alloc_size
region_above pool r h = ground arith

pub platform-Fresh : Fresh platform
platform-Fresh = record {
  not_null = λ pool r h e. let at = region_above pool r h in omega arith;
  retired = λ pool r q h (i, held). inl (
      let at = region_above pool r h in
      let le = below_sum pool.fully_used_allocs i q held in omega arith);
  current = λ pool r h ne. inl (let at = region_above pool r h in omega arith);
}
