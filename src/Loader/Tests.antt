-- ===== src/Loader/Tests.antt =====
-- user.c's stack_setup on concrete arguments.
use os.Base.{[], ◌∷◌, arith}
use os.Loader.{stack_setup, page}
use os.Loader.Start.{StartResult, fitting, stack_setup_lem}

-- A stack at 0x10000, the program at 0x5000, and the arguments "ab" and "c".
stack_setup_lem_example :
    StartResult 0x1_0000 0x5000 0x6000
      (fitting page ((97 ∷ 98 ∷ []) ∷ (99 ∷ []) ∷ []))
      (λ a. 0)
      (stack_setup 0x1_0000 0x5000 0x6000 ((97 ∷ 98 ∷ []) ∷ (99 ∷ []) ∷ []) (λ a. 0))
stack_setup_lem_example =
    stack_setup_lem 0x1_0000 0x5000 0x6000 ((97 ∷ 98 ∷ []) ∷ (99 ∷ []) ∷ []) (λ a. 0) (omega arith)
      (omega arith) (omega arith) (omega arith)
