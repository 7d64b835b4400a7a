-- ===== src/Syscalls/Tests.antt =====
-- syscalls.c on a concrete kernel: the theorems on the handlers applied.
use os.Base.{ℕ, ◌≡◌, refl, true, false, ok, some, [], ◌∷◌, arith, has}
use os.Pcb.{n_procs}
use os.Kernel.{Kernel, arg}
use os.Procs.Tests.{processes, booted, booted-ready}
use os.Syscalls.{wait_search, sys_sleep}
use os.Syscalls.Wait.{Searched, wait_search_any}
use os.Syscalls.Sleep.{SleepResult, sys_sleep_lem}

-- The process in slot 3 is the current one, and no other process sleeps.
abbrev three_runs : Kernel
three_runs = record booted { current = some 3 }

arg_nine : arg 3 1 three_runs ≡ ok (9, three_runs)
unfolding arg
arg_nine = refl

wait_search_any_example : Searched 0 processes 0 n_procs (wait_search 0 0 processes)
wait_search_any_example = wait_search_any 0 processes

none_sleeps : (j : ℕ) → has j (1 ∷ 2 ∷ []) ≡ true → has j [] ≡ false
none_sleeps j m = refl

sys_sleep_lem_example : SleepResult three_runs 3 109 1 [] (2 ∷ []) (sys_sleep 3 three_runs)
sys_sleep_lem_example =
    sys_sleep_lem three_runs 3 109 1 [] (2 ∷ []) booted-ready refl refl none_sleeps (omega arith) 9
      refl arg_nine refl refl (record { chain = refl; distinct = tt; tail = refl; length = refl })
      refl refl (omega arith)
