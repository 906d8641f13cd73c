-- ===== src/Tests/Returns.antt =====
-- Calls and returns on a processor: a callback, a proxy, and the shadow stack.
use xob.Base.{ℕ, Bool, suc, ◌+◌, ◌≡◌, refl, arith, List, [], ◌++◌, some, none, ◌==◌, if◌then◌else◌}
use xob.Outcome.{ok}
use xob.Vendor.Bad64
use xob.Vendor.Bad64.{Op}
use xob.Vendor.Iced.{Call}
use xob.Register.Context.{param_offset}
use xob.Compiler.Labels.{no_calls}
use xob.Branch.{link, make_return}
use xob.Branch.Returns.{CanLink, Linked, shadow_sp, link-Linked}
use xob.Branch.Returns.Return.{
  CanReturn, Popped, but_scratch, make_return-Linked, make_return-misses,
}
use xob.Wrapped.Proxy.{lib_proxy}
use xob.Wrapped.Proxy.Returns.{SparesShadow, CanCall, Returned, lib_proxy-Returned}
use xob.Callbacks.LandingPads.{resumable_landing_pad}
use xob.Callbacks.LandingPads.Resumed.{Resumed, resumable_landing_pad-Resumed}
use xob.Cpu.{Cpu, World, Next, Mode, run, put}
use xob.Cpu.Abi.{Native, SameRegs}
use xob.Tests.Setup.{vendor, callbacks, accepting}

-- A native function that returns 42 and uses RCX.
abbrev native_function : Cpu → Cpu
native_function s = record s { regs = put (put s.regs 0 42) 1 9 }

native_function-Native : (n : ℕ) → Native n native_function
native_function-Native n = record {
  saved = λ s. (refl, (refl, (refl, (refl, (refl, (refl, tt))))));
  stack = λ s. refl;
  frame = λ s k lt. refl;
}

native_function-SparesShadow : SparesShadow native_function
native_function-SparesShadow = record { context = λ t. refl; top = λ t. refl; second = λ t. refl }

-- It stands at address 700; a label stands at 5000 and its number.
abbrev world : World
world = record {
  label_addr = λ l. 5000 + l;
  native = λ target. if target == 700 then some native_function else none;
}

-- The stack at 10000, the context at 20000, the shadow stack at 30000 with a pair for 5.
abbrev cpu : Cpu
cpu = record {
  regs = λ k. if k == 4 then 10000 else if k == 15 then 20000 else if k == 11 then 5 else k;
  words = λ a. if a == 20424 then 30000 else if a == 30000 then 8000 else 5;
  zf = Bool.true;
}

resumable_landing_pad-Resumed_example :
    (e : Cpu) × (t : Cpu) × Resumed native_function cpu e t
    × (run world (resumable_landing_pad 700) (Mode.running cpu)
        ≡ Mode.left (Next.jumped ((native_function e).regs 0) t))
resumable_landing_pad-Resumed_example =
    resumable_landing_pad-Resumed world 700 native_function cpu refl (native_function-Native 80)
      (omega arith) (omega arith)

cpu-CanLink : CanLink cpu
cpu-CanLink = omega arith

cpu-CanReturn : CanReturn cpu
cpu-CanReturn = omega arith

cpu-CanCall : CanCall cpu
cpu-CanCall = omega arith

-- `bl` at 4096.
abbrev call_instr : Bad64.Instruction
call_instr = record { op = Op.bl; address = 4096; operands = [] }

link-Linked_example :
    (cs : List Call) × (t : Cpu) × (link ⦃v = vendor⦄ ⦃cb = callbacks⦄ call_instr no_calls
      ≡ (ok tt, record { calls = no_calls.calls ++ cs; labels = suc no_calls.labels }))
    × (run world cs (Mode.running cpu) ≡ Mode.running t)
    × Linked world 4100 1 cpu t
link-Linked_example =
    link-Linked ⦃v = vendor⦄ ⦃cb = callbacks⦄ accepting call_instr no_calls world cpu cpu-CanLink

-- The state behind the call.
abbrev inside_call : Cpu
inside_call = record {
  regs = λ k. if k == 4 then 10000 else if k == 15 then 20000 else if k == 11 then 4100 else k;
  words = λ a.
      if a == 20424 then 29984 else if a == 29992 then 4100 else if a == 29984 then 5001 else 5;
  zf = Bool.true;
}

inside_call-Linked : Linked world 4100 1 cpu inside_call
inside_call-Linked = record {
  link_register = refl;
  moved = refl;
  emulated_address = refl;
  native_address = refl;
  kept = (
    refl,
    (
      refl,
      (
        refl,
        (refl, (refl, (refl, (refl, (refl, (refl, (refl, (refl, (refl, (refl, (refl, tt))))))))))),
      ),
    ),
  );
}

inside_call-CanReturn : CanReturn inside_call
inside_call-CanReturn = omega arith

make_return-Linked_example :
    (cs : List Call) × (r : Cpu) × (make_return ⦃v = vendor⦄ ⦃cb = callbacks⦄ no_calls
      ≡ (ok tt, record { calls = no_calls.calls ++ cs; labels = suc no_calls.labels }))
    × (run world cs (Mode.running inside_call) ≡ Mode.left (Next.jumped 5001 r))
    × (shadow_sp r ≡ 30000)
    × SameRegs but_scratch inside_call r
make_return-Linked_example =
    make_return-Linked ⦃v = vendor⦄ ⦃cb = callbacks⦄ accepting no_calls world 4100 1 cpu inside_call
      inside_call inside_call-Linked inside_call-CanReturn refl refl refl refl

-- A return to another address than the one of the call.
abbrev astray : Cpu
astray = record inside_call { regs = put inside_call.regs 11 4200 }

astray-CanReturn : CanReturn astray
astray-CanReturn = omega arith

make_return-misses_example :
    (cs : List Call) × (r : Cpu) × (make_return ⦃v = vendor⦄ ⦃cb = callbacks⦄ no_calls
      ≡ (ok tt, record { calls = no_calls.calls ++ cs; labels = suc no_calls.labels }))
    × (run world cs (Mode.running astray) ≡ Mode.left (Next.called 4 r))
    × (r.words (r.regs 15 + param_offset) ≡ 4200)
    × Popped astray r
make_return-misses_example =
    make_return-misses ⦃v = vendor⦄ ⦃cb = callbacks⦄ accepting no_calls world astray
      astray-CanReturn refl (omega arith)

lib_proxy-Returned_example :
    (cs : List Call) × (e : Cpu) × (r : Cpu) × (lib_proxy ⦃v = vendor⦄ ⦃cb = callbacks⦄ 700 no_calls
      ≡ (ok tt, record { calls = no_calls.calls ++ cs; labels = suc no_calls.labels }))
    × (run world cs (Mode.running cpu) ≡ Mode.left (Next.jumped 8000 r))
    × Returned native_function cpu e r
lib_proxy-Returned_example =
    lib_proxy-Returned ⦃v = vendor⦄ ⦃cb = callbacks⦄ accepting 700 no_calls world native_function
      cpu refl (native_function-Native 16) native_function-SparesShadow cpu-CanCall refl
