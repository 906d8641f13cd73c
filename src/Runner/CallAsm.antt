-- ===== src/Runner/CallAsm.antt =====
-- `call` of src/runner.rs: the inline assembly that enters the emulated program with its arguments
-- on the stack, and takes them off when it returns. The operands that the compiler puts into
-- registers of its choice are values here, and a loop over the arguments is a recursion.
pub mod Entry
pub mod Entered
pub mod Left
use xob.Base.{ℕ, zero, suc, ◌+◌, ◌*◌, ◌%◌, ◌^◌, ◌==◌, if◌then◌else◌}
use xob.Register.Context.{shadow_sp_offset}
use xob.Cpu.{Cpu, add64, sub64, put, set_reg, set_word, push_word, pop_into}

-- `sub rsp, n` and `add rsp, n`, without their flags, which nothing tests.
abbrev pub lower_stack : ℕ → Cpu → Cpu
lower_stack n s = set_reg s 4 (sub64 (s.regs 4) n)

abbrev pub raise_stack : ℕ → Cpu → Cpu
raise_stack n s = set_reg s 4 (add64 (s.regs 4) n)

-- `(argc % 2 == 1) as usize`
unfoldable pub add_align : ℕ → ℕ
add_align argc = if argc % 2 == 1 then 1 else 0

-- `push {add_align}`, and 8 bytes more if it is not 0.
unfoldable pub push_alignment : ℕ → Cpu → Cpu
push_alignment align s =
    let pushed = push_word align s in if align == 0 then pushed else lower_stack 8 pushed

-- The loop at label 4: the last of `argc` arguments first.
unfoldable pub copy_args : ℕ → ℕ → Cpu → Cpu
copy_args argv zero s = s
copy_args argv (suc argc) s =
    copy_args argv argc
      (set_word s (add64 (s.regs 4) (argc * 8 + 8)) (s.words (add64 argv (argc * 8))))

-- The terminators of envp and argv, argv, and argc.
unfoldable pub push_args : ℕ → ℕ → Cpu → Cpu
unfolding copy_args
push_args argc argv s =
    copy_args argv argc
      (push_word argc (lower_stack (argc * 2 ^ 3 % 2 ^ 64) (push_word 0 (push_word 0 s))))

-- The link register, and the return address on the shadow stack, which `call` has made room for.
unfoldable pub link_return : ℕ → Cpu → Cpu
link_return ret s =
    let linked = set_reg s 11 ret in
    let sp = linked.words (add64 (linked.regs 15) shadow_sp_offset) in
    set_word (set_word linked (add64 sp 8) ret) sp ret

-- Up to `jmp {target}`; `ret` is the address of label 2.
unfoldable pub enter : ℕ → ℕ → ℕ → ℕ → Cpu → Cpu
unfolding add_align push_alignment push_args link_return
enter ctx_ptr argc argv ret s =
    link_return ret (push_args argc argv (push_alignment (add_align argc) (set_reg s 15 ctx_ptr)))

-- From label 2 on.
unfoldable pub leave : Cpu → Cpu
leave s =
    let argc = pop_into 0 s in
    let args = raise_stack (argc.regs 0 * 2 ^ 3 % 2 ^ 64) argc in
    let align = pop_into 0 (raise_stack 16 args) in
    if align.regs 0 == 0 then align else pop_into 0 align
