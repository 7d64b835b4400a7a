-- ===== src/Snake.antt =====
-- usercode/vga/snake.c: the game of snake on the graphics screen.
--
-- A round of the game is the move of the snake with its checks and the food; its drawing is left out
-- but for draw_cell.
pub mod Cells
pub mod Heading
mod Rounds
mod Tests
use os.Base.{
  ℕ, zero, suc, ◌+◌, ◌-◌, ◌*◌, ◌/◌, ◌%◌, Bool, true, false, not, ◌&&◌, ◌||◌, Outcome, ok, panic,
  out_of_fuel, List, [], ◌∷◌, ◌++◌, ltb, leb, ◌==◌, if◌then◌else◌,
}
use os.Vga.{ℤ, Vga, inc, vga_put_pixel_buf}

abbrev pub cell : ℕ
cell = 8

abbrev pub border_cells : ℕ
border_cells = 1

abbrev pub grid_w : ℕ
grid_w = 40

abbrev pub grid_h : ℕ
grid_h = 25

abbrev pub play_w : ℕ
play_w = 38

abbrev pub play_h : ℕ
play_h = 23

abbrev pub max_len : ℕ
max_len = play_w * play_h

-- A cell of the grid; its coordinates are bytes.
pub record Point : Type 0 where
  pub x : ℕ
  pub y : ℕ

-- snake_body, snake_length, dir_x and dir_y, food and rng_state
pub record Game : Type 0 where
  pub body : ℕ → Point
  pub length : ℕ
  pub dir_x : ℤ
  pub dir_y : ℤ
  pub food : Point
  pub rng : ℕ

abbrev pub same_cell : Point → Point → Bool
same_cell p q = (p.x == q.x) && (p.y == q.y)

pub lcg_rand : ℕ → ℕ
lcg_rand state = (state * 1664525 + 1013904223) % 0x1_0000_0000

-- The loop of place_food that looks for the cell in the snake, from index `i`.
pub on_snake : (ℕ → Point) → ℕ → ℕ → Point → Bool
on_snake body zero i p = false
on_snake body (suc n) i p = same_cell (body i) p || on_snake body n (i + 1) p

-- The cell that two random numbers choose.
abbrev pub random_cell : ℕ → ℕ → Point
random_cell a b = record {
  x = (border_cells + a % play_w) % 256;
  y = (border_cells + b % play_h) % 256;
}

-- place_food, on fuel.
pub place_food : ℕ → Game → Outcome Game
unfolding lcg_rand on_snake
place_food zero g = out_of_fuel
place_food (suc fuel) g =
    let a = lcg_rand g.rng in
    let b = lcg_rand a in
    let p = random_cell a b in
    let again = place_food fuel (record g { rng = b }) in
    if on_snake g.body g.length 0 p then again else ok (record g { food = p; rng = b })

-- The start of a game; the snake is five cells long.
pub start : ℕ → Game → Game
start system_time g = record {
  body = λ i.
      if ltb i 5
      then record { x = border_cells + play_w / 2 - i; y = border_cells + play_h / 2 }
      else g.body i;
  length = 5;
  dir_x = ℤ.pos 1;
  dir_y = ℤ.pos 0;
  food = g.food;
  rng = system_time;
}

abbrev pub one_of : ℕ → ℕ → ℕ → ℕ → Bool
one_of c lower upper arrow = (c == lower) || ((c == upper) || (c == arrow))

abbrev pub is_one : ℤ → Bool
is_one (ℤ.pos n) = n == 1
is_one (ℤ.negsuc n) = false

abbrev pub is_minus_one : ℤ → Bool
is_minus_one (ℤ.pos n) = false
is_minus_one (ℤ.negsuc n) = n == 0

-- What a key does to the direction; the snake cannot turn back. (ESC, which ends the game, is not a
-- direction.)
pub steer : ℕ → Game → Game
steer c g =
    if one_of c 119 87 56 && not (is_one g.dir_y)
    then record g { dir_x = ℤ.pos 0; dir_y = ℤ.negsuc 0 }
    else if one_of c 115 83 50 && not (is_minus_one g.dir_y)
    then record g { dir_x = ℤ.pos 0; dir_y = ℤ.pos 1 }
    else if one_of c 97 65 52 && not (is_one g.dir_x)
    then record g { dir_x = ℤ.negsuc 0; dir_y = ℤ.pos 0 }
    else if one_of c 100 68 54 && not (is_minus_one g.dir_x)
    then record g { dir_x = ℤ.pos 1; dir_y = ℤ.pos 0 }
    else g

-- `snake_body[i] = snake_body[i - 1]`, from `i = n` down to 1.
pub shift : ℕ → (ℕ → Point) → ℕ → Point
shift zero body = body
shift (suc n) body = shift n (λ i. if i == suc n then body n else body i)

-- `+=` on a byte.
abbrev pub add_to : ℕ → ℤ → ℕ
add_to v (ℤ.pos n) = (v + n) % 256
add_to v (ℤ.negsuc n) = (v + 256 - (n + 1) % 256) % 256

pub move_body : Game → Game
unfolding shift
move_body g =
    let body = shift g.length g.body in
    record g {
      body = λ i.
          if i == 0
          then record { x = add_to (body 0).x g.dir_x; y = add_to (body 0).y g.dir_y }
          else body i;
    }

abbrev pub on_border : Point → Bool
on_border p =
    ltb p.x border_cells
    || (leb (grid_w - border_cells) p.x
        || (ltb p.y border_cells || leb (grid_h - border_cells) p.y))

-- The move of a round and its checks: whether the game goes on, and the snake, which has grown if
-- its head is on the food.
pub advance : Game → Bool × Game
unfolding move_body on_snake
advance g =
    let m = move_body g in
    if on_border (m.body 0) || on_snake m.body (m.length - 1) 1 (m.body 0)
    then (false, m)
    else if same_cell (m.body 0) m.food
    then (true, record m { length = if ltb max_len (m.length + 1) then max_len else m.length + 1 })
    else (true, m)

pub goes_on_with : Outcome Game → Outcome (Bool × Game)
goes_on_with (ok g) = ok (true, g)
goes_on_with panic = panic
goes_on_with out_of_fuel = out_of_fuel

-- A round up to its drawing: the snake that has eaten gets new food.
pub play_round : ℕ → Game → Outcome (Bool × Game)
unfolding goes_on_with
play_round fuel g =
    let (going, m) = advance g in
    let placed = goes_on_with (place_food fuel m) in
    if going && same_cell (m.body 0) m.food then placed else ok (going, m)

-- A row of a cell, and the rows, in the back buffer.
pub cell_row : ℕ → ℤ → ℤ → ℕ → Vga → Vga
cell_row zero x y color v = v
cell_row (suc n) x y color v = cell_row n (inc x) y color (vga_put_pixel_buf x y color v)

pub cell_rows : ℕ → ℤ → ℤ → ℕ → Vga → Vga
unfolding cell_row
cell_rows zero x y color v = v
cell_rows (suc n) x y color v = cell_rows n x (inc y) color (cell_row cell x y color v)

pub draw_cell : ℕ → ℕ → ℕ → Vga → Vga
unfolding cell_rows
draw_cell gx gy color v = cell_rows cell (ℤ.pos (gx * cell)) (ℤ.pos (gy * cell)) color v

-- int_to_str: the digits of a number, which the source stores in reverse and then copies.
pub digits_of : ℕ → ℕ → List ℕ
digits_of zero v = []
digits_of (suc fuel) v =
    let rest = digits_of fuel (v / 10) in if v == 0 then [] else rest ++ (48 + v % 10) ∷ []

pub int_to_str : ℕ → List ℕ
unfolding digits_of
int_to_str v = if v == 0 then 48 ∷ [] else digits_of 12 v
