-- ===== src/Snake/Tests.antt =====
-- snake.c on a concrete game: its theorem applied.
use os.Base.{ℕ, ◌<◌, ◌≡◌, refl, zero, suc, arith, false, ltb, if◌then◌else◌}
use os.Vga.{ℤ}
use os.Snake.{Game, advance, same_cell, on_border}
use os.Snake.Heading.{Heading}
use os.Snake.Cells.{IsSnake, FoodFree, AdvanceResult, advance-IsSnake}

-- Two cells, at 20, 12 and 19, 12; the snake moves to the right, to the food.
abbrev near_food : Game
near_food = record {
  body = λ i. if ltb i 1 then record { x = 20; y = 12 } else record { x = 19; y = 12 };
  length = 2;
  dir_x = ℤ.pos 1;
  dir_y = ℤ.pos 0;
  food = record { x = 21; y = 12 };
  rng = 7;
}

near_food-IsSnake : IsSnake Heading.right near_food
near_food-IsSnake = record {
  east = refl;
  south = refl;
  some_cells = omega arith;
  fits = omega arith;
  playable = λ i lt. playable_at i;
  distinct = λ i j before lt. distinct_at i j before lt;
}
  where
    playable_at : (i : ℕ) → on_border (near_food.body i) ≡ false
    playable_at zero = refl
    playable_at (suc i) = ground arith

    distinct_at :
        (i j : ℕ) → i < j → j < 2 → same_cell (near_food.body i) (near_food.body j) ≡ false
    distinct_at zero (suc j) before lt = ground arith
    distinct_at i zero before lt = absurd (omega arith)
    distinct_at (suc i) (suc j) before lt = absurd (omega arith)

near_food-FoodFree : FoodFree near_food
near_food-FoodFree zero lt = refl
near_food-FoodFree (suc j) lt = ground arith

advance-IsSnake_example : AdvanceResult Heading.right near_food (advance near_food)
advance-IsSnake_example =
    advance-IsSnake Heading.right near_food near_food-IsSnake near_food-FoodFree
