-- ===== src/Snake/Heading.antt =====
-- The four directions of the snake.
use os.Vga.{ℤ}
use os.Base.{ap₂, ◌+◌, ◌-◌, ◌≡◌, false, arith}
use os.Snake.{Point, on_border, add_to}

-- Where the snake goes.
pub data Heading : Type 0 where
  up : Heading
  down : Heading
  left : Heading
  right : Heading

abbrev pub dx : Heading → ℤ
dx Heading.up = ℤ.pos 0
dx Heading.down = ℤ.pos 0
dx Heading.left = ℤ.negsuc 0
dx Heading.right = ℤ.pos 1

abbrev pub dy : Heading → ℤ
dy Heading.up = ℤ.negsuc 0
dy Heading.down = ℤ.pos 1
dy Heading.left = ℤ.pos 0
dy Heading.right = ℤ.pos 0

-- The next cell.
abbrev pub neighbour : Heading → Point → Point
neighbour Heading.up p = record p { y = p.y - 1 }
neighbour Heading.down p = record p { y = p.y + 1 }
neighbour Heading.left p = record p { x = p.x - 1 }
neighbour Heading.right p = record p { x = p.x + 1 }

-- A step from a cell of the playable region.
pub step :
    (h : Heading) (p : Point)
    → on_border p ≡ false
    → record p { x = add_to p.x (dx h); y = add_to p.y (dy h) } ≡ neighbour h p
step Heading.up p e = ap₂ (λ a b. record p { x = a; y = b }) (ground (arith, e)) (ground (arith, e))
step Heading.down p e =
    ap₂ (λ a b. record p { x = a; y = b }) (ground (arith, e)) (ground (arith, e))
step Heading.left p e =
    ap₂ (λ a b. record p { x = a; y = b }) (ground (arith, e)) (ground (arith, e))
step Heading.right p e =
    ap₂ (λ a b. record p { x = a; y = b }) (ground (arith, e)) (ground (arith, e))
