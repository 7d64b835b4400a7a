-- ===== src/Cio/Screen/Cursor.antt =====
-- Text at the cursor of cio.c.
use os.Base.{
  ◌⊎◌, ℕ, zero, suc, ◌+◌, ◌-◌, ◌%◌, ◌≤◌, ◌≡◌, refl, ◌&&◌, ◌||◌, List, [], ◌∷◌, arith, ltb, leb,
  ◌==◌, Bool-cases, inl, inr,
}
use os.Klib.Blocks.{bound}
use os.Klib.Blocks.Moves.{bound_lem}
use os.Klib.Numbers.{u32_mod}
use os.Cio.Screen.{
  Screen, show, putchar_at, blank_from, make_room, advance, put, cio_putchar, cio_puts,
  cio_setscroll, cio_moveto, extend,
}
use os.Cio.Screen.Region.{Within, Within-refl, Within-trans, row_Within}
use os.Cio.Screen.Room.{IsInside, moved_Within, Put, make_room-Put}

-- A character written to a cell of the region; the cursor stays.
record Shown (s s' : Screen) : Type 0 where
  within : Within s s'
  column : s'.curr_x ≡ s.curr_x
  row : s'.curr_y ≡ s.curr_y

show-Shown :
    (x y c : ℕ) (s : Screen)
    → s.scroll_min_x ≤ x
    → x ≤ s.scroll_max_x
    → s.scroll_min_y ≤ y
    → y ≤ s.scroll_max_y
    → Shown s (show x y c s).1
unfolding show
show-Shown x y c s left right top bottom = elim (Bool-cases (leb x s.max_x && leb y s.max_y)) [
  | inr outside ↦ simp outside (record { within = Within-refl s; column = refl; row = refl })
  | inl visible ↦ simp visible (record {
    within = row_Within s y _ top bottom (omega arith) (λ a out. ground (arith, out));
    column = refl;
    row = refl;
  })
]

putchar_at-Shown :
    (x y c : ℕ) (s : Screen)
    → s.scroll_min_x ≤ x
    → x ≤ s.scroll_max_x
    → s.scroll_min_y ≤ y
    → y ≤ s.scroll_max_y
    → Shown s (putchar_at x y c s)
unfolding putchar_at
putchar_at-Shown x y c s left right top bottom =
    let s' : Screen = (show x y c s).1 in
    let shown = show-Shown x y c s left right top bottom in
    elim (Bool-cases (
      ltb x s'.scroll_min_x
      || (ltb s'.scroll_max_x x || (ltb y s'.scroll_min_y || ltb s'.scroll_max_y y)))) [
        | inl outside ↦ rw outside shown
        | inr inside ↦ rw inside (record {
          within = Within-trans s s' _ shown.within (record {
            left = refl;
            right = refl;
            top = refl;
            bottom = refl;
            cells = λ a. inl refl;
          });
          column = shown.column;
          row = shown.row;
        })
      ]

blank_from-Within :
    (n x y : ℕ) (s : Screen)
    → s.scroll_min_x ≤ x
    → (n ≡ 0) ⊎ (x + n ≤ s.scroll_max_x + 1)
    → s.scroll_min_y ≤ y
    → y ≤ s.scroll_max_y
    → Within s (blank_from n x y s)
unfolding blank_from
blank_from-Within zero x y s left right top bottom = Within-refl s
blank_from-Within (suc n) x y s left right top bottom =
    let w = (putchar_at-Shown x y b' ' s left (omega (arith, right)) top bottom).within in
    Within-trans s _ _ w (
      blank_from-Within n (x + 1) y (putchar_at x y b' ' s) (omega (arith, w.left))
        (omega (arith, right, w.right)) (omega (arith, w.top)) (omega (arith, w.bottom)))

Put-IsInside : (s s' : Screen) → IsInside s → Put s (s.scroll_max_y + 1) s' → IsInside s'
Put-IsInside s s' i p =
    let w = p.within in
    record {
      left = omega (arith, p.left, w.left);
      right = omega (arith, p.right, w.right);
      top = omega (arith, p.top, w.top);
      bottom = omega (arith, p.bottom, w.bottom);
      height = omega (arith, i.height, w.top, w.bottom);
    }

advance-Put :
    (s s' : Screen)
    → IsInside s
    → s.curr_y ≤ s.scroll_max_y
    → Shown s s'
    → Put s (s.scroll_max_y + 1) (advance s')
unfolding advance
advance-Put s s' i room shown =
    let w = shown.within in
    elim (Bool-cases (ltb s'.scroll_max_x (s'.curr_x + 1))) [
      | inl at_end ↦ simp at_end (record {
        within = Within-trans s s' _ w (moved_Within _ _ _);
        left = omega (arith, w.left);
        right = omega (arith, w.left, i.left, i.right);
        top = omega (arith, shown.row, i.top);
        bottom = omega (arith, shown.row, room);
      })
      | inr inside ↦ simp inside (record {
        within = Within-trans s s' _ w (moved_Within _ _ _);
        left = omega (arith, shown.column, i.left);
        right = ground (arith, w.right);
        top = omega (arith, shown.row, i.top);
        bottom = omega (arith, shown.row, room);
      })
    ]

put-Put :
    (c : ℕ) (s : Screen)
    → IsInside s
    → s.curr_y ≤ s.scroll_max_y
    → Put s (s.scroll_max_y + 1) (put c s)
unfolding put
put-Put c s i room = elim (Bool-cases (c % 256 == b'\n')) [
  | inl newline ↦
      let w =
        blank_from-Within (s.scroll_max_x + 1 - s.curr_x) s.curr_x s.curr_y s i.left
          (omega (arith, i.right)) i.top room in
      simp newline (record {
        within = Within-trans s _ _ w (moved_Within _ _ _);
        left = omega (arith, w.left);
        right = omega (arith, i.left, i.right);
        top = omega (arith, i.top);
        bottom = omega (arith, room);
      })
  | inr other ↦ elim (Bool-cases (c % 256 == b'\r')) [
    | inl return ↦
        simp (other, return)
          (record {
            within = moved_Within s s.scroll_min_x s.curr_y;
            left = omega arith;
            right = omega (arith, i.left, i.right);
            top = i.top;
            bottom = i.bottom;
          })
    | inr char ↦
        let shown = putchar_at-Shown s.curr_x s.curr_y c s i.left i.right i.top room in
        rw (other, char) (advance-Put s _ i room shown)
  ]
]

cio_putchar-Put : (c : ℕ) (s : Screen) → IsInside s → Put s (s.scroll_max_y + 1) (cio_putchar c s)
unfolding cio_putchar
cio_putchar-Put c s i =
    let r = make_room-Put s i in
    let w = r.within in
    let i' : IsInside (make_room s) = Put-IsInside s (make_room s) i (record {
      within = w;
      left = r.left;
      right = r.right;
      top = r.top;
      bottom = omega (arith, r.bottom);
    }) in
    let p = put-Put c (make_room s) i' (omega (arith, r.bottom, w.bottom)) in
    record {
      within = Within-trans s _ _ w p.within;
      left = omega (arith, p.left, w.left);
      right = omega (arith, p.right, w.right);
      top = omega (arith, p.top, w.top);
      bottom = omega (arith, p.bottom, w.bottom);
    }

-- Text goes to the scrolling region only: whatever the characters, cio_puts writes no cell outside
-- the region, leaves the region as it is, and the cursor stays inside it, in it or one line below.
pub cio_puts-IsInside :
    (str : List ℕ) (s : Screen) → IsInside s → IsInside (cio_puts str s) × Within s (cio_puts str s)
unfolding cio_puts
cio_puts-IsInside [] s i = (i, Within-refl s)
cio_puts-IsInside (ch ∷ str) s i =
    let p = cio_putchar-Put (extend ch) s i in
    let (i', w) = cio_puts-IsInside str (cio_putchar (extend ch) s) (Put-IsInside s _ i p) in
    (i', Within-trans s _ _ p.within w)

-- A screen whose corners are in order.
pub record IsScreen (s : Screen) : Type 0 where
  pub wide : s.min_x ≤ s.max_x
  pub high : s.min_y ≤ s.max_y

-- Whatever the arguments, cio_setscroll makes a region that lies on the screen and holds the
-- cursor, and cio_moveto then moves the cursor to a cell of it.
pub cio_setscroll-cio_moveto :
    (s_min_x s_min_y s_max_x s_max_y x y : ℕ) (s : Screen)
    → IsScreen s
    → let s1 = cio_setscroll s_min_x s_min_y s_max_x s_max_y s in
      let s2 = cio_moveto x y s1 in
      IsInside s1
      × IsInside s2
      × (s2.curr_y ≤ s2.scroll_max_y)
      × (s.min_x ≤ s2.scroll_min_x)
      × (s2.scroll_max_x ≤ s.max_x)
      × (s.min_y ≤ s2.scroll_min_y)
      × (s2.scroll_max_y ≤ s.max_y)
unfolding cio_setscroll cio_moveto
cio_setscroll-cio_moveto s_min_x s_min_y s_max_x s_max_y x y s i =
    let min_x : ℕ = bound s.min_x s_min_x s.max_x in
    let min_y : ℕ = bound s.min_y s_min_y s.max_y in
    let a = bound_lem s.min_x s_min_x s.max_x i.wide in
    let b = bound_lem s.min_y s_min_y s.max_y i.high in
    let c = bound_lem min_x s_max_x s.max_x a.1 in
    let d = bound_lem min_y s_max_y s.max_y b.1 in
    let e = bound_lem min_x ((x + min_x) % u32_mod) (bound min_x s_max_x s.max_x) c.0 in
    let f = bound_lem min_y ((y + min_y) % u32_mod) (bound min_y s_max_y s.max_y) d.0 in
    (
      record {
        left = omega arith;
        right = c.0;
        top = omega arith;
        bottom = omega (arith, d.0);
        height = d.0;
      },
      record { left = e.0; right = e.1; top = f.0; bottom = omega (arith, f.1); height = d.0 },
      f.1,
      a.0,
      c.1,
      b.0,
      d.1,
    )
