-- ===== src/Snake/Rounds.antt =====
-- Rounds of the game with their food, one after the other.
use os.Base.{
  not, ◌-◌, ◌<◌, ltb, ℕ, zero, suc, ◌≡◌, refl, ap, ◌∙◌, inl, inr, Bool, true, false, ◌&&◌, arith,
  Outcome, ok, panic, out_of_fuel, if◌then◌else◌, Bool-cases,
}
use os.Snake.{
  start, steer, one_of, is_one, is_minus_one, place_food, random_cell, lcg_rand, Game, Point,
  same_cell, on_snake, on_border, advance, play_round, goes_on_with,
}
use os.Snake.Heading.{Heading, dx, dy}
use os.Snake.Cells.{IsSnake, FoodFree, AdvanceResult, advance-IsSnake, not_on_snake}

random_inside : (a b : ℕ) → on_border (random_cell a b) ≡ false
random_inside a b = ground arith

-- place_food finds a cell of the playable region that the snake is not on.
abbrev FoodResult : Game → Outcome Game → Type 0
FoodResult g (ok g') =
    FoodFree g'
    × (on_border g'.food ≡ false)
    × (g'.body ≡ g.body)
    × (g'.length ≡ g.length)
    × (g'.dir_x ≡ g.dir_x)
    × (g'.dir_y ≡ g.dir_y)
FoodResult g panic = ⊥
FoodResult g out_of_fuel = Unit {0}

place_food_lem : (fuel : ℕ) (g : Game) → FoodResult g (place_food fuel g)
unfolding place_food
place_food_lem zero g = tt
place_food_lem (suc fuel) g =
    place_from (on_snake g.body g.length 0 p) refl (place_food_lem fuel (record g { rng = b }))
  where
    b : ℕ
    b = lcg_rand (lcg_rand g.rng)

    p : Point
    p = random_cell (lcg_rand g.rng) (lcg_rand (lcg_rand g.rng))

    place_from :
        (hit : Bool)
        → on_snake g.body g.length 0 p ≡ hit
        → FoodResult g (place_food fuel (record g { rng = b }))
        → FoodResult g (
            if hit
            then place_food fuel (record g { rng = b })
            else ok (record g { food = p; rng = b }))
    place_from true e d = d
    place_from false e d = (
      λ j lt. not_on_snake g.body g.length 0 p e j (omega arith) (omega arith),
      random_inside (lcg_rand g.rng) (lcg_rand (lcg_rand g.rng)),
      refl,
      refl,
      refl,
      refl,
    )

carried :
    (h : Heading) (g g' : Game)
    → g'.body ≡ g.body
    → g'.length ≡ g.length
    → g'.dir_x ≡ g.dir_x
    → g'.dir_y ≡ g.dir_y
    → IsSnake h g
    → IsSnake h g'
carried h g g' b n dx dy s = record {
  east = dx ∙ s.east;
  south = dy ∙ s.south;
  some_cells = omega (arith, s.some_cells, n);
  fits = omega (arith, s.fits, n);
  playable = λ i lt. ap (λ f. on_border (f i)) b ∙ s.playable i (omega (arith, n));
  distinct =
      λ i j before lt. ap (λ f. same_cell (f i) (f j)) b ∙ s.distinct i j before (omega (arith, n));
}

-- A game that goes on can be played for another round.
abbrev RoundResult : Heading → Outcome (Bool × Game) → Type 0
RoundResult h (ok (true, g)) = IsSnake h g × FoodFree g
RoundResult h (ok (false, g)) = Unit {0}
RoundResult h panic = ⊥
RoundResult h out_of_fuel = Unit {0}

fed :
    (h : Heading) (g : Game) (r : Outcome Game)
    → IsSnake h g
    → FoodResult g r
    → RoundResult h (goes_on_with r)
unfolding goes_on_with
fed h g (ok g') s (free, inside, b, n, dx, dy) = (carried h g g' b n dx dy s, free)
fed h g panic s d = d
fed h g out_of_fuel s d = tt

-- After a round that goes on, the cells of the snake are again in the playable region and all
-- different, and the food, new if it was eaten, is on none of them.
play_round_lem :
    (h : Heading) (fuel : ℕ) (g : Game)
    → IsSnake h g
    → FoodFree g
    → RoundResult h (play_round fuel g)
unfolding play_round
play_round_lem h fuel g s free = round_from (advance g) (advance-IsSnake h g s free)
  where
    round_from :
        (r : Bool × Game)
        → AdvanceResult h g r
        → RoundResult h (
            if r.0 && same_cell (r.1.body 0) r.1.food
            then goes_on_with (place_food fuel r.1)
            else ok (r.0, r.1))
    round_from (false, m) d = tt
    round_from (true, m) (head, s', ge, le, moved, free') =
        elim (Bool-cases (same_cell (m.body 0) m.food)) [
          | inl eats ↦ rw eats (fed h m (place_food fuel m) s' (place_food_lem fuel m))
          | inr not_there ↦ rw not_there (s', free' not_there)
        ]

start_body : (t : ℕ) (g : Game) (i : ℕ) → i < 5 → (start t g).body i ≡ record { x = 20 - i; y = 12 }
unfolding start
start_body t g i lt = let inside : ltb i 5 ≡ true = ground arith in rw inside refl

start_length : (t : ℕ) (g : Game) → (start t g).length ≡ 5
unfolding start
start_length t g = refl

-- A game starts with a snake that goes to the right.
start-IsSnake : (t : ℕ) (g : Game) → IsSnake Heading.right (start t g)
unfolding start
start-IsSnake t g = record {
  east = refl;
  south = refl;
  some_cells = omega arith;
  fits = omega arith;
  playable = λ i lt. ap on_border (start_body t g i lt) ∙ ground arith;
  distinct = λ i j before lt.
      ap (λ p. same_cell p ((start t g).body j)) (start_body t g i (omega arith))
      ∙ ap (same_cell (record { x = 20 - i; y = 12 })) (start_body t g j lt)
      ∙ ground arith;
}

turned :
    (h h' : Heading) (g : Game)
    → IsSnake h g
    → IsSnake h' (record g { dir_x = dx h'; dir_y = dy h' })
turned h h' g s = record {
  east = refl;
  south = refl;
  some_cells = s.some_cells;
  fits = s.fits;
  playable = s.playable;
  distinct = s.distinct;
}

-- Whatever the key, the snake goes in one of the four directions.
steer-IsSnake :
    (c : ℕ) (h : Heading) (g : Game) → IsSnake h g → (h' : Heading) × IsSnake h' (steer c g)
unfolding steer
steer-IsSnake c h g s = elim (Bool-cases (one_of c 119 87 56 && not (is_one g.dir_y))) [
  | inl up ↦ rw up (Heading.up, turned h Heading.up g s)
  | inr not_up ↦ elim (Bool-cases (one_of c 115 83 50 && not (is_minus_one g.dir_y))) [
    | inl down ↦ rw (not_up, down) (Heading.down, turned h Heading.down g s)
    | inr not_down ↦ elim (Bool-cases (one_of c 97 65 52 && not (is_one g.dir_x))) [
      | inl left ↦ rw (not_up, not_down, left) (Heading.left, turned h Heading.left g s)
      | inr not_left ↦ elim (Bool-cases (one_of c 100 68 54 && not (is_minus_one g.dir_x))) [
        | inl right ↦
            rw (not_up, not_down, not_left, right) (Heading.right, turned h Heading.right g s)
        | inr other ↦ rw (not_up, not_down, not_left, other) (h, s)
      ]
    ]
  ]
]
