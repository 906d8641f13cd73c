-- ===== src/Tests/Entry.antt =====
-- `call` on a processor, with one argument and with a word of padding that is 0.
use xob.Base.{Bool, ◌+◌, ◌%◌, ◌≡◌, ◌==◌, if◌then◌else◌, refl, arith, inr}
use xob.Cpu.{Cpu, put}
use xob.Runner.CallAsm.{enter, leave}
use xob.Runner.CallAsm.Entered.{CanEnter, Entered, enter-Entered}
use xob.Runner.CallAsm.Left.{leave-enter}

-- The stack at 10000, the context at 20000, the shadow stack at 30000, argv at 40000.
abbrev cpu : Cpu
cpu = record {
  regs = λ k. if k == 4 then 10000 else k;
  words = λ a. if a == 20424 then 30000 else if a == 40000 then 41000 else 0;
  zf = Bool.true;
}

cpu-CanEnter : CanEnter 20000 1 40000 cpu
cpu-CanEnter = record {
  stack = (omega arith, omega arith);
  source = omega arith;
  apart = inr (omega arith);
  context = omega arith;
  context_apart = inr (omega arith);
  shadow = omega arith;
  shadow_apart = inr (omega arith);
  shadow_context = (omega arith, omega arith);
}

enter-Entered_example :
    Entered 20000 1 40000 4096 cpu (enter 20000 1 40000 4096 cpu)
    × ((enter 20000 1 40000 4096 cpu).regs 4 % 16 ≡ 0)
enter-Entered_example = enter-Entered 20000 1 40000 4096 cpu cpu-CanEnter

-- The emulated program returns 7.
abbrev finished : Cpu
finished = record (enter 20000 1 40000 4096 cpu) {
  regs = put (enter 20000 1 40000 4096 cpu).regs 0 7;
}

leave-enter_example : (leave finished).regs 4 + 8 ≡ 10000
leave-enter_example =
    leave-enter 20000 1 40000 4096 cpu finished cpu-CanEnter refl (λ a low high. refl)
