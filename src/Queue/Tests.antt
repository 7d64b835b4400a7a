-- ===== src/Queue/Tests.antt =====
-- The queues on a concrete table: the theorems on them applied, and runs of the small operations.
use os.Base.{ℕ, ◌≡◌, refl, false, none, some, [], ◌∷◌, arith, ◌==◌, if◌then◌else◌}
use os.Pcb.{Table, State, Status}
use os.Queue.{
  Queue, o_fifo, o_prio, pcb_queue_reset, pcb_queue_empty, pcb_queue_length, pcb_queue_peek,
  pcb_queue_insert, pcb_queue_remove, pcb_queue_remove_this,
}
use os.Queue.Chain.{Holds}
use os.Queue.Insert.{InsertResult, insert_at, pcb_queue_insert_lem}
use os.Queue.Remove.{RemoveResult, pcb_queue_remove_lem}
use os.Queue.Unlink.{RemoveThisResult, pcb_queue_remove_this_lem}

-- Slot 1 has priority 1 and leads to slot 2; every other slot has priority 5 and leads nowhere.
abbrev linked : Table
linked i = record {
  context = 0;
  stack = none;
  next = if i == 1 then some 2 else none;
  parent = none;
  wakeup = 0;
  exit_status = 0;
  pid = i;
  state = State.ready;
  priority = if i == 1 then 1 else 5;
  ticks = 0;
  stkpgs = 0;
}

abbrev one_two : ℕ → Queue
one_two order = record { head = some 1; tail = some 2; length = 2; order = order }

one_two-Holds : (order : ℕ) → Holds linked (one_two order) (1 ∷ 2 ∷ [])
one_two-Holds order = record {
  chain = (refl, (refl, refl));
  distinct = (refl, (refl, tt));
  tail = refl;
  length = refl;
}

pcb_queue_insert_lem_example :
    InsertResult linked
      (one_two o_prio)
      3
      (insert_at o_prio linked 3 (1 ∷ 2 ∷ []))
      (pcb_queue_insert linked (one_two o_prio) 3)
pcb_queue_insert_lem_example =
    pcb_queue_insert_lem linked (one_two o_prio) 3 (1 ∷ 2 ∷ []) (one_two-Holds o_prio) (omega arith)
      refl refl (omega arith)

pcb_queue_remove_lem_example :
    RemoveResult linked (one_two o_fifo) (1 ∷ 2 ∷ []) (pcb_queue_remove linked (one_two o_fifo))
pcb_queue_remove_lem_example =
    pcb_queue_remove_lem linked (one_two o_fifo) (1 ∷ 2 ∷ []) (one_two-Holds o_fifo) (omega arith)

pcb_queue_remove_this_lem_example :
    RemoveThisResult linked
      (one_two o_fifo)
      2
      (1 ∷ 2 ∷ [])
      (pcb_queue_remove_this linked (one_two o_fifo) 2)
pcb_queue_remove_this_lem_example =
    pcb_queue_remove_this_lem linked (one_two o_fifo) 2 (1 ∷ 2 ∷ []) (one_two-Holds o_fifo)
      (omega arith)

reset_queue :
    pcb_queue_reset (one_two o_fifo) o_prio
    ≡ (Status.success, record { head = none; tail = none; length = 0; order = o_prio })
unfolding pcb_queue_reset
reset_queue = refl

reset_refused : pcb_queue_reset (one_two o_fifo) 4 ≡ (Status.e_bad_param, one_two o_fifo)
unfolding pcb_queue_reset
reset_refused = refl

looked_at :
    (pcb_queue_empty (one_two o_fifo) ≡ false)
    × (pcb_queue_length (one_two o_fifo) ≡ 2)
    × (pcb_queue_peek (one_two o_fifo) ≡ some 1)
unfolding pcb_queue_empty pcb_queue_length pcb_queue_peek
looked_at = (refl, refl, refl)
