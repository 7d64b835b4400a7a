-- ===== src/Clock/Tests.antt =====
-- clock.c on a concrete kernel: the theorem on its loop applied.
use os.Base.{refl, [], ◌∷◌, arith}
use os.Queue.{o_wakeup}
use os.Kernel.{Kernel}
use os.Procs.Tests.{of_two, booted, booted-ready}
use os.Clock.{wake_loop}
use os.Clock.Step.{Before}
use os.Clock.Wake.{WokenResult, wake_loop_lem}

-- The processes in slots 5 and 6 sleep.
abbrev two_sleep : Kernel
two_sleep = record booted { sleeping = of_two 5 6 o_wakeup }

two_sleep-Before : Before two_sleep (5 ∷ 6 ∷ []) (1 ∷ 2 ∷ [])
two_sleep-Before = record {
  asleep = record {
    chain = (refl, (refl, refl));
    distinct = (refl, (refl, tt));
    tail = refl;
    length = refl;
  };
  ready = booted-ready;
  order = refl;
  apart = λ j. ground arith;
  alive = λ j. ground arith;
  few = omega arith;
}

wake_loop_lem_example : WokenResult two_sleep (5 ∷ 6 ∷ []) (1 ∷ 2 ∷ []) (wake_loop 3 two_sleep)
wake_loop_lem_example =
    wake_loop_lem 3 two_sleep (5 ∷ 6 ∷ []) (1 ∷ 2 ∷ []) two_sleep-Before (omega arith)
