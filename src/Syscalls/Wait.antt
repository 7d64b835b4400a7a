-- ===== src/Syscalls/Wait.antt =====
-- sys_waitpid for any child: what the search over the process table finds.
use os.Base.{
  ℕ, zero, suc, ◌+◌, ◌<◌, ◌≡◌, ◌⊎◌, refl, Bool, true, false, ◌&&◌, some, arith, if◌then◌else◌,
  Bool-cases, inl, inr,
}
use os.Pcb.{Table, Status, is_zombie, n_procs, ptr_eq}
use os.Procs.Find.{NoneOf}
use os.Syscalls.{Search, refused, block, collect, look_any, wait_search}

-- The slot's parent is `i`, whatever its state; and it is a zombie too.
abbrev pub is_child : ℕ → Table → ℕ → Bool
is_child i t c = ptr_eq (t c).parent (some i)

abbrev pub is_dead_child : ℕ → Table → ℕ → Bool
is_dead_child i t c = is_child i t c && is_zombie (t c).state

-- Some slot among the `n` from `c` on passes the test.
abbrev pub SomeOf : (ℕ → Bool) → ℕ → ℕ → Type 0
SomeOf test c zero = ⊥
SomeOf test c (suc n) = (test c ≡ true) ⊎ SomeOf test (c + 1) n

-- What a search over the `n` slots from `c` on says: the first dead child; or to block, as there is
-- a slot with this parent but no dead one; or that no slot has this parent.
abbrev pub Searched : ℕ → Table → ℕ → ℕ → Search → Type 0
Searched i t c n (refused s) = (s ≡ Status.e_no_children) × NoneOf (is_child i t) c n
Searched i t c n block = SomeOf (is_child i t) c n × NoneOf (is_dead_child i t) c n
Searched i t c n (collect z) =
    (m : ℕ) × (z ≡ c + m) × (m < n) × (is_dead_child i t z ≡ true) × NoneOf (is_dead_child i t) c m

-- The same once a child was seen.
abbrev Seen : ℕ → Table → ℕ → ℕ → Search → Type 0
Seen i t c n (refused s) = ⊥
Seen i t c n block = NoneOf (is_dead_child i t) c n
Seen i t c n (collect z) =
    (m : ℕ) × (z ≡ c + m) × (m < n) × (is_dead_child i t z ≡ true) × NoneOf (is_dead_child i t) c m

Seen-suc :
    (i : ℕ) (t : Table) (c n : ℕ) (r : Search)
    → is_dead_child i t c ≡ false
    → Seen i t (c + 1) n r
    → Seen i t c (suc n) r
Seen-suc i t c n (refused s) miss h = h
Seen-suc i t c n block miss h = (miss, h)
Seen-suc i t c n (collect z) miss (m, e, lt, hit, before) =
    (suc m, omega arith, omega arith, hit, (miss, before))

look_any-Seen : (i : ℕ) (t : Table) (n c : ℕ) → Seen i t c n (look_any i t true n c)
unfolding look_any
look_any-Seen i t zero c = tt
look_any-Seen i t (suc n) c = elim (Bool-cases (is_dead_child i t c)) [
  | inl hit ↦ rw hit (0, omega arith, omega arith, hit, tt)
  | inr miss ↦ rw miss (elim (Bool-cases (is_child i t c)) [
    | inl mine ↦
        rw mine (Seen-suc i t c n (look_any i t true n (c + 1)) miss (look_any-Seen i t n (c + 1)))
    | inr other ↦
        rw other (Seen-suc i t c n (look_any i t true n (c + 1)) miss (look_any-Seen i t n (c + 1)))
  ])
]

Searched-suc :
    (i : ℕ) (t : Table) (c n : ℕ) (r : Search)
    → is_child i t c ≡ false
    → Searched i t (c + 1) n r
    → Searched i t c (suc n) r
Searched-suc i t c n (refused s) miss (e, h) = (e, (miss, h))
Searched-suc i t c n block miss (child, h) = (inr child, (rw miss refl, h))
Searched-suc i t c n (collect z) miss (m, e, lt, hit, before) =
    (suc m, omega arith, omega arith, hit, (rw miss refl, before))

Seen-Searched :
    (i : ℕ) (t : Table) (c n : ℕ) (r : Search)
    → is_child i t c ≡ true
    → Seen i t c (suc n) r
    → Searched i t c (suc n) r
Seen-Searched i t c n (refused s) mine h = elim h [ ]
Seen-Searched i t c n block mine h = (inl mine, h)
Seen-Searched i t c n (collect z) mine h = h

look_any-Searched : (i : ℕ) (t : Table) (n c : ℕ) → Searched i t c n (look_any i t false n c)
unfolding look_any
look_any-Searched i t zero c = (refl, tt)
look_any-Searched i t (suc n) c = elim (Bool-cases (is_child i t c)) [
  | inl mine ↦ rw mine (
      Seen-Searched i t c n
        (if is_zombie (t c).state then collect c else look_any i t true n (c + 1)) mine
        (elim (Bool-cases (is_zombie (t c).state)) [
          | inl dead ↦ rw dead (0, omega arith, omega arith, rw (mine, dead) refl, tt)
          | inr alive ↦ rw alive (
              Seen-suc i t c n (look_any i t true n (c + 1)) (rw (mine, alive) refl)
                (look_any-Seen i t n (c + 1)))
        ]))
  | inr other ↦
      rw other (
        Searched-suc i t c n (look_any i t false n (c + 1)) other (look_any-Searched i t n (c + 1)))
]

-- With no PID given, sys_waitpid's search collects the first zombie of the table whose parent is the
-- caller. With none it says to block exactly if some slot of the table, unused ones included, still
-- names the caller as its parent, and returns E_NO_CHILDREN otherwise.
pub wait_search_any : (i : ℕ) (t : Table) → Searched i t 0 n_procs (wait_search i 0 t)
unfolding wait_search
wait_search_any i t = look_any-Searched i t n_procs 0
