-- ===== src/Snake/Cells.antt =====
-- The cells of the snake, round by round.
use os.Snake.Heading.{Heading, dx, dy, neighbour, step}
use os.Base.{
  ap₂, ℕ, zero, suc, ◌+◌, ◌-◌, ◌≤◌, ◌<◌, ◌≡◌, refl, sym, ap, ◌∙◌, ◌⊎◌, inl, inr, Bool, true, false,
  ◌&&◌, ◌||◌, arith, ltb, leb, ◌==◌, if◌then◌else◌, Bool-cases,
}
use os.Snake.{
  Game, Point, same_cell, on_snake, shift, move_body, on_border, advance, add_to, max_len,
}

-- The snake goes in a direction; its cells are in the playable region, and no two of them are the
-- same.
pub record IsSnake (h : Heading) (g : Game) : Type 0 where
  pub east : g.dir_x ≡ dx h
  pub south : g.dir_y ≡ dy h
  pub some_cells : 0 < g.length
  pub fits : g.length ≤ max_len
  pub playable : (i : ℕ) → i < g.length → on_border (g.body i) ≡ false
  pub distinct : (i j : ℕ) → i < j → j < g.length → same_cell (g.body i) (g.body j) ≡ false

shift_lem :
    (n : ℕ) (body : ℕ → Point) (i : ℕ)
    → shift n body i ≡ (if (ltb 0 i && leb i n) then body (i - 1) else body i)
unfolding shift
shift_lem zero body i = ground arith
shift_lem (suc n) body i = shift_lem n (λ k. if k == suc n then body n else body k) i ∙ shift_step
  where
    shift_step :
        (if (ltb 0 i && leb i n)
          then (if i - 1 == suc n then body n else body (i - 1))
          else (if i == suc n then body n else body i))
        ≡ (if (ltb 0 i && leb i (suc n)) then body (i - 1) else body i)
    shift_step = elim (Bool-cases (i == suc n)) [
      | inl e ↦
          let a : ltb 0 i ≡ true = ground arith in
          let b : leb i n ≡ false = ground arith in
          let c : leb i (suc n) ≡ true = ground arith in rw (e, a, b, c) (ap body (ground arith))
      | inr ne ↦ rw ne (elim (Bool-cases (ltb 0 i && leb i n)) [
        | inl h ↦
            let a : (ltb 0 i && leb i (suc n)) ≡ true = ground arith in
            let b : (i - 1 == suc n) ≡ false = ground arith in rw (h, a, b)
        | inr h ↦ let a : (ltb 0 i && leb i (suc n)) ≡ false = ground arith in rw (h, a)
      ])
    ]

pub not_on_snake :
    (body : ℕ → Point) (n i : ℕ) (p : Point)
    → on_snake body n i p ≡ false
    → (j : ℕ) → i ≤ j
    → j < i + n
    → same_cell (body j) p ≡ false
unfolding on_snake
not_on_snake body zero i p e j lo hi = absurd (omega arith)
not_on_snake body (suc n) i p e j lo hi = elim (Bool-cases (j == i)) [
  | inl here ↦
      (let same : j ≡ i = ground arith in ap (λ k. same_cell (body k) p) same ∙ ground (arith, e))
  | inr next ↦ not_on_snake body n (i + 1) p (ground arith) j (ground arith) (omega arith)
]

-- What a move leaves in each cell.
module _ (g : Game) where
  moved_back : (j : ℕ) → j < g.length → (move_body g).body (suc j) ≡ g.body j
  unfolding move_body
  moved_back j lt =
      let z : (suc j == 0) ≡ false = ground arith in
      let b : (ltb 0 (suc j) && leb (suc j) g.length) ≡ true = ground arith in
      rw z (shift_lem g.length g.body (suc j) ∙ rw b (ap g.body (omega arith)))

-- The food is on no cell of the snake.
abbrev pub FoodFree : Game → Type 0
FoodFree g = (j : ℕ) → j < g.length → same_cell (g.body j) g.food ≡ false

same_sym : (p q : Point) → same_cell p q ≡ same_cell q p
same_sym p q = ground arith

same_food : (p q r : Point) → same_cell q r ≡ true → same_cell p q ≡ same_cell p r
same_food p q r e = ground arith

found_on :
    (body : ℕ → Point) (n i : ℕ) (p : Point)
    → on_snake body n i p ≡ true
    → (j : ℕ) × (i ≤ j) × (j < i + n) × (same_cell (body j) p ≡ true)
unfolding on_snake
found_on body zero i p e = absurd (ground arith)
found_on body (suc n) i p e = elim (Bool-cases (same_cell (body i) p)) [
  | inl here ↦ (i, omega arith, omega arith, here)
  | inr not_here ↦
      let (j, lo, hi, h) = found_on body n (i + 1) p (ground arith) in
      (j, omega arith, omega arith, h)
]

-- The head is on the next cell. The game goes on with a snake that moved by one cell and is one cell
-- longer at most; the food is still on none of its cells, if its head is not there. Or the game
-- ends, because the head left the playable region or is where a cell of the snake but the last one
-- was.
abbrev pub AdvanceResult : Heading → Game → Bool × Game → Type 0
AdvanceResult h g (false, g') =
    (g'.body 0 ≡ neighbour h (g.body 0))
    × ((on_border (g'.body 0) ≡ true)
        ⊎ ((j : ℕ) × (suc j < g.length) × (same_cell (g.body j) (g'.body 0) ≡ true)))
AdvanceResult h g (true, g') =
    (g'.body 0 ≡ neighbour h (g.body 0))
    × IsSnake h g'
    × (g.length ≤ g'.length)
    × (g'.length ≤ g.length + 1)
    × ((j : ℕ) → j < g.length → g'.body (suc j) ≡ g.body j)
    × (same_cell (g'.body 0) g'.food ≡ false → FoodFree g')

module _ (h : Heading) (g : Game) (s : IsSnake h g) (free : FoodFree g) where
  abbrev head : Point
  head = (move_body g).body 0

  head_moved : head ≡ neighbour h (g.body 0)
  unfolding move_body
  head_moved =
      let first : shift g.length g.body 0 ≡ g.body 0 = shift_lem g.length g.body 0 in
      ap (λ (p : Point). record { x = add_to p.x g.dir_x; y = add_to p.y g.dir_y }) first
      ∙ ap₂ (λ u v. record { x = add_to (g.body 0).x u; y = add_to (g.body 0).y v }) s.east s.south
      ∙ step h (g.body 0) (s.playable 0 (omega (arith, s.some_cells)))

  dir_x_kept : (move_body g).dir_x ≡ g.dir_x
  unfolding move_body
  dir_x_kept = refl

  dir_y_kept : (move_body g).dir_y ≡ g.dir_y
  unfolding move_body
  dir_y_kept = refl

  -- The moved snake with `n` of its cells, when the head is in the playable region and on no cell.
  grown-IsSnake :
      (n : ℕ)
      → 0 < n
      → n ≤ max_len
      → n ≤ g.length + 1
      → on_border head ≡ false
      → ((j : ℕ) → suc j < n → same_cell (g.body j) head ≡ false)
      → IsSnake h (record (move_body g) { length = n })
  grown-IsSnake n pos fits le inside apart = record {
    east = dir_x_kept ∙ s.east;
    south = dir_y_kept ∙ s.south;
    some_cells = pos;
    fits = fits;
    playable = λ i lt. playable_at i lt;
    distinct = λ i j before lt. distinct_at i j before lt;
  }
    where
      playable_at : (i : ℕ) → i < n → on_border ((move_body g).body i) ≡ false
      playable_at zero lt = inside
      playable_at (suc i) lt =
          ap on_border (moved_back g i (omega arith)) ∙ s.playable i (omega arith)

      distinct_at :
          (i j : ℕ)
          → i < j
          → j < n
          → same_cell ((move_body g).body i) ((move_body g).body j) ≡ false
      distinct_at i zero before lt = absurd (omega arith)
      distinct_at zero (suc j) before lt =
          ap (same_cell head) (moved_back g j (omega arith)) ∙ same_sym head (g.body j) ∙ apart j lt
      distinct_at (suc i) (suc j) before lt =
          ap (λ p. same_cell p ((move_body g).body (suc j))) (moved_back g i (omega arith))
          ∙ ap (same_cell (g.body i)) (moved_back g j (omega arith))
          ∙ s.distinct i j (omega arith) (omega arith)

  length_kept : (move_body g).length ≡ g.length
  unfolding move_body
  length_kept = refl

  food_kept : (move_body g).food ≡ g.food
  unfolding move_body
  food_kept = refl

  -- The head is on no cell that the check of the source looks at.
  off_body :
      on_snake (move_body g).body ((move_body g).length - 1) 1 head ≡ false
      → (j : ℕ) → suc j < g.length
      → same_cell (g.body j) head ≡ false
  off_body e j lt =
      ap (λ p. same_cell p head) (sym (moved_back g j (omega arith)))
      ∙ not_on_snake (move_body g).body ((move_body g).length - 1) 1 head e (suc j) (omega arith)
          (omega (arith, length_kept))

  -- When the head is on the food, it is on no cell at all.
  off_all :
      same_cell head (move_body g).food ≡ true
      → (j : ℕ) → j < g.length
      → same_cell (g.body j) head ≡ false
  off_all e j lt =
      same_food (g.body j) head (move_body g).food e
      ∙ ap (same_cell (g.body j)) food_kept
      ∙ free j lt

  ends :
      (on_border head || on_snake (move_body g).body ((move_body g).length - 1) 1 head) ≡ true
      → AdvanceResult h g (false, move_body g)
  ends e = elim (Bool-cases (on_border head)) [
    | inl out ↦ (head_moved, inl out)
    | inr inside ↦
        let (j, lo, hi, there) =
          found_on (move_body g).body ((move_body g).length - 1) 1 head (ground arith) in
        let back : (move_body g).body (suc (j - 1)) ≡ (move_body g).body j =
          ap (λ k. (move_body g).body k) (omega arith) in
        let at : g.body (j - 1) ≡ (move_body g).body j =
          sym (moved_back g (j - 1) (omega (arith, length_kept))) ∙ back in
        (head_moved, inr (j - 1, omega (arith, length_kept), ap (λ p. same_cell p head) at ∙ there))
  ]

  goes_on :
      (n : ℕ)
      → g.length ≤ n
      → n ≤ max_len
      → n ≤ g.length + 1
      → on_border head ≡ false
      → ((j : ℕ) → suc j < n → same_cell (g.body j) head ≡ false)
      → (same_cell head (move_body g).food ≡ false → n ≡ g.length)
      → AdvanceResult h g (true, record (move_body g) { length = n })
  goes_on n ge fits le inside apart same_length = (
    head_moved,
    grown-IsSnake n (omega (arith, s.some_cells)) fits le inside apart,
    ge,
    le,
    moved_back g,
    λ off j lt. free_at off j lt,
  )
    where
      free_at :
          same_cell head (move_body g).food ≡ false
          → (j : ℕ) → j < n
          → same_cell ((move_body g).body j) (move_body g).food ≡ false
      free_at off zero lt = off
      free_at off (suc j) lt =
          ap (λ p. same_cell p (move_body g).food) (moved_back g j (omega (arith, same_length off)))
          ∙ ap (same_cell (g.body j)) food_kept
          ∙ free j (omega (arith, same_length off))

  -- For a snake that goes in one of the four directions, whose cells are in the playable region and
  -- all different, with the food on none of them: after the move of a round its head is on the next
  -- cell in that direction. If the game goes on, the cells are again in the playable region and all
  -- different, each cell behind the head is where the cell before it was, the direction is the same,
  -- the snake is longer by one cell at most, and the food is on none of its cells unless the head is
  -- there. If not, the head is outside the playable region or where a cell of the snake but the last
  -- was.
  pub advance-IsSnake : AdvanceResult h g (advance g)
  unfolding advance
  advance-IsSnake =
      elim (Bool-cases
        (on_border head || on_snake (move_body g).body ((move_body g).length - 1) 1 head)) [
          | inl over ↦ rw (over, AdvanceResult) (ends over)
          | inr on ↦
              let inside : on_border head ≡ false = ground arith in
              let off : on_snake (move_body g).body ((move_body g).length - 1) 1 head ≡ false =
                ground arith in
              elim (Bool-cases (same_cell head (move_body g).food)) [
                | inl eats ↦ elim (Bool-cases (ltb max_len ((move_body g).length + 1))) [
                  | inl full ↦
                      let over : max_len < (move_body g).length + 1 = ground arith in
                      rw (on, eats, full, AdvanceResult)
                        (goes_on max_len s.fits (omega arith) (omega (arith, over, length_kept))
                          inside (λ j lt. off_all eats j (omega (arith, length_kept, s.fits)))
                          (λ away. absurd (ground arith)))
                  | inr room ↦
                      let below : (move_body g).length + 1 ≤ max_len = ground arith in
                      rw (on, eats, room, AdvanceResult)
                        (goes_on ((move_body g).length + 1) (omega (arith, length_kept)) below
                          (omega (arith, length_kept)) inside
                          (λ j lt. off_all eats j (omega (arith, length_kept)))
                          (λ away. absurd (ground arith)))
                ]
                | inr hungry ↦
                    rw (on, hungry, AdvanceResult)
                      (goes_on (move_body g).length (omega (arith, length_kept))
                        (omega (arith, length_kept, s.fits)) (omega (arith, length_kept)) inside
                        (λ j lt. off_body off j (omega (arith, length_kept))) (λ away. length_kept))
              ]
        ]
