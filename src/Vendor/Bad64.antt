-- ===== src/Vendor/Bad64.antt =====
-- The part of the bad64 disassembler that the compiler names: registers, operands, operations.
-- A 64-bit immediate is its bit pattern, a number below 2 ^ 64. `other` stands for what the
-- compiler never names.
use xob.Base.{ℕ, List, Option}

-- `bad64::Reg`: the families that the compiler tests, each with its index.
pub data Reg : Type 0 where
  x_reg w_reg v_reg b_reg h_reg s_reg d_reg q_reg : ℕ → Reg
  xzr sp wzr wsp : Reg
  other : ℕ → Reg

abbrev pub ArrSpec : Type 0
ArrSpec = ℕ

pub data Imm : Type 0 where
  signed unsigned : ℕ → Imm

pub data Shift : Type 0 where
  lsl lsr asr ror msl : ℕ → Shift
  uxtb uxth uxtw uxtx sxtb sxth sxtw sxtx : ℕ → Shift

pub data Condition : Type 0 where
  eq ne cs cc mi pl vs vc hi ls ge lt gt le al nv : Condition

pub data Operand : Type 0 where
  reg : Reg → Option ArrSpec → Operand
  shift_reg : Reg → Shift → Operand
  imm64 imm32 : Imm → Option Shift → Operand
  label : Imm → Operand
  mem_offset mem_pre_idx mem_post_idx_imm : Reg → Imm → Operand
  mem_ext : Reg → Reg → Option Shift → Operand
  cond : Condition → Operand
  other : Operand

pub data Op : Type 0 where
  sub subs asr lsl lsr cmp nop cmn mov and orr eor movk adrp add adds sxtw sxth : Op
  sxtb uxth uxtb udiv sdiv madd csel ccmp cset movi bic ubfiz b_al b_cc b_cs b_eq : Op
  b_ge b_gt b_hi b_le b_ls b_lt b_mi b_ne b_nv b_pl b_vc b_vs b bl cbz cbnz tbz : Op
  tbnz br blr ret bti stp ldp str stur ldr ldur ldrb ldurb ldrsb ldursb ldrh ldurh : Op
  ldrsh ldursh ldrsw ldursw strb sturb strh sturh paciasp paciaz pacia1716 pacibsp : Op
  pacibz pacib1716 pacia pacda pacib pacdb paciza pacdza pacizb pacdzb autiasp : Op
  autiaz autia1716 autibsp autibz autib1716 autia autda autib autdb autiza autdza : Op
  autizb autdzb xpacd xpaci xpaclri : Op
  other : Op

pub record Instruction : Type 0 where
  pub op : Op
  pub operands : List Operand
  pub address : ℕ
