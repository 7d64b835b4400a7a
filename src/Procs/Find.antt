-- ===== src/Procs/Find.antt =====
-- pcb_find_pid: the search of the process table.
use os.Base.{
  ℕ, zero, suc, ◌+◌, ◌≤◌, ◌<◌, ◌≡◌, Bool, true, false, not, ◌&&◌, Option, none, some, arith, ltb,
  ◌==◌, Bool-cases, inl, inr,
}
use os.Pcb.{Table, is_unused, n_procs}
use os.Procs.{find_pid_from, pcb_find_pid}

-- The slot holds a live process with this PID.
abbrev pub is_pid : ℕ → Table → ℕ → Bool
is_pid pid t c = ((t c).pid == pid) && not (is_unused (t c).state)

-- No slot from `i` on, for `n` slots, passes the test.
abbrev pub NoneOf : (ℕ → Bool) → ℕ → ℕ → Type 0
NoneOf test i zero = Unit {0}
NoneOf test i (suc n) = (test i ≡ false) × NoneOf test (i + 1) n

-- What a search from slot `i` over `n` slots finds: a slot in range that passes the test, with none
-- before it, or nothing.
abbrev pub FirstOf : (ℕ → Bool) → ℕ → ℕ → Option ℕ → Type 0
FirstOf test i n none = NoneOf test i n
FirstOf test i n (some c) = (m : ℕ) × (c ≡ i + m) × (m < n) × (test c ≡ true) × NoneOf test i m

FirstOf-suc :
    (test : ℕ → Bool) (i n : ℕ) (r : Option ℕ)
    → test i ≡ false
    → FirstOf test (i + 1) n r
    → FirstOf test i (suc n) r
FirstOf-suc test i n none miss f = (miss, f)
FirstOf-suc test i n (some c) miss (m, e, lt, hit, before) =
    (suc m, omega arith, omega arith, hit, (miss, before))

find_pid_from_lem :
    (pid : ℕ) (t : Table) (n i : ℕ) → FirstOf (is_pid pid t) i n (find_pid_from pid n i t)
unfolding find_pid_from
find_pid_from_lem pid t zero i = tt
find_pid_from_lem pid t (suc n) i = elim (Bool-cases (is_pid pid t i)) [
  | inl hit ↦ rw hit (0, omega arith, omega arith, hit, tt)
  | inr miss ↦ rw miss (
      FirstOf-suc (is_pid pid t) i n (find_pid_from pid n (i + 1) t) miss
        (find_pid_from_lem pid t n (i + 1)))
]

-- For a PID that is not 0, pcb_find_pid returns the first slot of the table that holds a live
-- process with that PID, and NULL exactly if there is none.
pub pcb_find_pid_lem :
    (pid : ℕ) (t : Table) → 1 ≤ pid → FirstOf (is_pid pid t) 0 n_procs (pcb_find_pid pid t)
unfolding pcb_find_pid
pcb_find_pid_lem pid t pos =
    let e : ltb pid 1 ≡ false = ground arith in rw e (find_pid_from_lem pid t n_procs 0)
