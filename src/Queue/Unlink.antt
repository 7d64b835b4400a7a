-- ===== src/Queue/Unlink.antt =====
-- pcb_queue_remove_this.
use mathlib.Core.Path.{subst}
use os.Base.{
  is_nil, sym, ap, ◌∙◌, ℕ, ◌+◌, ◌<◌, ◌≡◌, refl, true, false, not, Option, none, some, List, [], ◌∷◌,
  ◌++◌, arith, length, length-append, has, ◌==◌, if◌then◌else◌, Bool-cases, inl, inr, ok, panic,
  out_of_fuel, Outcome, ◌>>=◌,
}
use os.Pcb.{Table, set_next, is_some, Status}
use os.Queue.{Queue, pcb_queue_remove_this, search_this, unlink, unlink_found}
use os.Queue.Chain.{
  Chain, last_of, Holds, next_self, next_other, set_next_fields, set_next_fields_twice, last_some,
  Chain-frame, last_of-append, has-last, has_ne,
}
use os.Queue.Remove.{Removed}
use os.Queue.Search.{
  split_lem, erase, erase-split, search_found, search_missed, Chain-remove, Distinct-drop,
}

-- The tail pointer after the slot `i` is taken out from between `d` and `ys`.
tail_lem :
    (t : Table) (i : ℕ) (d n tl : Option ℕ) (ys : List ℕ)
    → Chain t n ys
    → tl ≡ last_of (some i) ys
    → (if is_some n then tl else d) ≡ last_of d ys
tail_lem t i d n tl [] c e = rw c
tail_lem t i d n tl (y ∷ ys) c e = rw c.0 e

module _ (t : Table) (q : Queue) (i : ℕ) (small : q.length < 0x1_0000_0000) where
  unlink_first :
      (ys : List ℕ)
      → Holds t q (i ∷ ys)
      → let (t', q') = unlink t q none i in Removed t q i ys t' q'
  unfolding unlink
  unlink_first ys h = record {
    holds = record {
      chain =
          Chain-frame t (set_next t i none) (t i).next ys h.chain.1
            (λ j m. next_other t i none j (ground (arith, has_ne i j ys)));
      distinct = h.distinct.1;
      tail = tail_lem t i none (t i).next q.tail ys h.chain.1 h.tail;
      length = omega (arith, h.length);
    };
    order = refl;
    detached = next_self t i none;
    fields = set_next_fields t i none;
  }

  unlink_behind :
      (x : ℕ) (xs ys : List ℕ) (p : ℕ)
      → last_of (some x) xs ≡ some p
      → Holds t q (x ∷ xs ++ i ∷ ys)
      → has i (x ∷ xs) ≡ false
      → let (t', q') = unlink t q (some p) i in Removed t q i (x ∷ xs ++ ys) t' q'
  unfolding unlink
  unlink_behind x xs ys p e h fresh =
      let ne : (i == p) ≡ false = has_ne i p (x ∷ xs) fresh (has-last x xs p e) in
      let en : (p == i) ≡ false = ground arith in
      let keep = next_other t p (t i).next i ne in
      record {
        holds = record {
          chain =
              Chain-remove t (set_next (set_next t p (t i).next) i none) q.head x xs ys i p h.chain
                h.distinct e (next_other _ i none p en ∙ next_self t p (t i).next)
                (λ j n m. next_other _ i none j n ∙ next_other t p (t i).next j m);
          distinct = Distinct-drop (x ∷ xs) ys i h.distinct;
          tail = rw keep (
              tail_lem t i (some p) (t i).next q.tail ys (after x xs h.chain)
                (h.tail ∙ last_of-append (some x) xs (i ∷ ys))
              ∙ ap (λ d. last_of d ys) (sym e)
              ∙ sym (last_of-append (some x) xs ys));
          length =
              omega (arith, h.length, length-append (x ∷ xs) ys, length-append (x ∷ xs) (i ∷ ys));
        };
        order = refl;
        detached = next_self _ i none;
        fields = set_next_fields_twice t p (t i).next i none;
      }
    where
      after :
          (z : ℕ) (zs : List ℕ) {a : Option ℕ}
          → Chain t a (z ∷ zs ++ i ∷ ys)
          → Chain t (t i).next ys
      after z [] c = c.1.1
      after z (w ∷ ws) c = after w ws c.1

-- A queue that holds a list has both end pointers or neither.
ends_lem :
    (t : Table) (q : Queue) (xs : List ℕ)
    → Holds t q xs
    → (if is_some q.head then is_some q.tail else not (is_some q.tail)) ≡ true
ends_lem t q [] h = rw (h.chain, h.tail)
ends_lem t q (x ∷ xs) h = let (p, e) = last_some x xs in simp (h.chain.0, h.tail ∙ e)

abbrev pub RemoveThisResult : Table → Queue → ℕ → List ℕ → Outcome (Status × Table × Queue) → Type 0
RemoveThisResult t q i xs (ok (s, t', q')) =
    if has i xs
    then (s ≡ Status.success) × Removed t q i (erase i xs) t' q'
    else ((s ≡ (if is_nil xs then Status.e_empty_queue else Status.e_not_found))
        × (t' ≡ t)
        × (q' ≡ q))
RemoveThisResult t q i xs panic = ⊥
RemoveThisResult t q i xs out_of_fuel = ⊥

unlinked :
    (t : Table) (q : Queue) (i : ℕ) (prev : Option ℕ) (xs : List ℕ)
    → (let (t', q') = unlink t q prev i in Removed t q i (erase i xs) t' q')
    → has i xs ≡ true
    → RemoveThisResult t q i xs (unlink_found t q (prev, some i))
unfolding unlink_found
unlinked t q i prev xs r here = rw (ends_lem _ _ (erase i xs) r.holds, here) (refl, r)

remove_split :
    (t : Table) (q : Queue) (i : ℕ) (ys zs : List ℕ)
    → q.length < 0x1_0000_0000
    → Holds t q (ys ++ i ∷ zs)
    → has i ys ≡ false
    → let (t', q') = unlink t q (last_of none ys) i in Removed t q i (ys ++ zs) t' q'
remove_split t q i [] zs small h fresh = unlink_first t q i small zs h
remove_split t q i (x ∷ xs) zs small h fresh =
    let (p, e) = last_some x xs in
    subst (λ d. let (t', q') = unlink t q d i in Removed t q i (x ∷ xs ++ zs) t' q') (sym e)
      (unlink_behind t q i small x xs zs p e h fresh)

-- On a queue that holds the PCBs `xs`, pcb_queue_remove_this ends within its fuel and without a
-- failed assertion. If the PCB is among them it succeeds: the queue holds the others in the same
-- order, the PCB's `next` is NULL, and no other field changes in any PCB. Otherwise it changes
-- nothing, and returns E_EMPTY_QUEUE if the queue is empty and E_NOT_FOUND if it is not.
pub pcb_queue_remove_this_lem :
    (t : Table) (q : Queue) (i : ℕ) (xs : List ℕ)
    → Holds t q xs
    → q.length < 0x1_0000_0000
    → RemoveThisResult t q i xs (pcb_queue_remove_this t q i)
unfolding pcb_queue_remove_this unlink_found
pcb_queue_remove_this_lem t q i [] h small = simp h.chain (refl, refl, refl)
pcb_queue_remove_this_lem t q i (x ∷ xs) h small = elim (Bool-cases (has i (x ∷ xs))) [
  | inl here ↦
      let s = split_lem i (x ∷ xs) here in
      let h' = subst (λ l. Holds t q l) (sym s.whole) h in
      let out : erase i (x ∷ xs) ≡ s.before ++ s.after =
        ap (erase i) (sym s.whole) ∙ erase-split i s.before s.after s.fresh in
      let fits : length s.before < q.length + 1 =
        omega (arith, h'.length, length-append s.before (i ∷ s.after)) in
      present (search_found t i (q.length + 1) none q.head s.before s.after h'.chain s.fresh fits) (
        unlinked t q i (last_of none s.before) (x ∷ xs)
          (subst (λ l. let (t', q') = unlink t q (last_of none s.before) i in Removed t q i l t' q')
            (sym out) (remove_split t q i s.before s.after small h' s.fresh))
          here)
  | inr gone ↦
      let (p, e) = last_some x xs in
      present
        (search_missed t i (q.length + 1) none q.head (x ∷ xs) h.chain gone
            (omega (arith, h.length))
          ∙ ap (λ d. ok (d, none)) e)
        (rw gone (refl, refl, refl))
]
  where
    present :
        {r : Option ℕ × Option ℕ}
        → search_this t i (q.length + 1) none q.head ≡ ok r
        → RemoveThisResult t q i (x ∷ xs) (unlink_found t q r)
        → RemoveThisResult t q i (x ∷ xs) (
            if not (is_some q.head)
            then ok (Status.e_empty_queue, t, q)
            else search_this t i (q.length + 1) none q.head >>= unlink_found t q)
    present e r = simp h.chain.0 (simp (simp h.chain.0 at e) r)
