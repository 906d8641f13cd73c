-- ===== src/ExecPool/Ranges.antt =====
-- The ranges of emulated code.
use xob.Base.{ℕ, ◌≡◌, refl, ◌&&◌, ◌||◌, List, [], ◌∷◌, ◌++◌, leb, ltb, arith}
use xob.ExecPool.{ExecPool, ExecutableRange, any_range, is_executable, define_exec_range}

any_range-append :
    (rs qs : List ExecutableRange) (addr : ℕ)
    → any_range (rs ++ qs) addr ≡ (any_range rs addr || any_range qs addr)
unfolding any_range
any_range-append [] qs addr = refl
any_range-append (r ∷ rs) qs addr = ground (arith, any_range-append rs qs addr)

-- Once a range is defined, exactly the addresses that were executable before and those of the range,
-- its start included and its end not, are executable.
pub is_executable-define_exec_range :
    (pool : ExecPool) (start stop addr : ℕ)
    → is_executable (define_exec_range pool start stop) addr
      ≡ (is_executable pool addr || (leb start addr && ltb addr stop))
unfolding is_executable define_exec_range any_range
is_executable-define_exec_range pool start stop addr =
    ground
      (arith, any_range-append pool.exec_ranges (record { start = start; stop = stop } ∷ []) addr)
