-- ===== src/Cio/Screen/Scrolling.antt =====
-- What scrolling shows: cio_scroll of cio.c.
use Prim.Native.Nat.{bit_or}
use os.Base.{
  ap, ap₂, ◌∙◌, ℕ, zero, suc, ◌+◌, ◌-◌, ◌≤◌, ◌<◌, ◌≡◌, ◌&&◌, arith, ltb, leb, ◌==◌, if◌then◌else◌,
  Bool-cases, inl, inr,
}
use os.Cio.Screen.{
  Screen, video_addr, vga_default, poke, screen_x_size, clear_row, clear_rows, cio_clearscroll,
  copy_row, copy_rows, cio_scroll,
}
use os.Cio.Screen.Region.{clear_row_outside, copy_row_outside}

abbrev pub blank : ℕ
blank = bit_or b' ' vga_default

clear_row_inside :
    (n to : ℕ) (video : ℕ → ℕ) (a : ℕ) → to ≤ a → a < to + n → clear_row n to video a ≡ blank
unfolding clear_row
clear_row_inside zero to video a low high = absurd (omega arith)
clear_row_inside (suc n) to video a low high = elim (Bool-cases (a == to)) [
  | inl first ↦ clear_row_outside n (to + 1) (poke video to blank) a (ground arith) ∙ ground arith
  | inr later ↦ clear_row_inside n (to + 1) (poke video to blank) a (ground arith) (omega arith)
]

-- A copy to a lower address, from the first cell on.
copy_row_inside :
    (n from to : ℕ) (video : ℕ → ℕ) (k : ℕ)
    → to ≤ from
    → k < n
    → copy_row n from to video (to + k) ≡ video (from + k)
unfolding copy_row
copy_row_inside zero from to video k low high = absurd (omega arith)
copy_row_inside (suc n) from to video zero low high =
    copy_row_outside n (from + 1) (to + 1) (poke video to (video from)) (to + 0) (omega arith)
    ∙ ground arith
copy_row_inside (suc n) from to video (suc k) low high =
    let here : to + suc k ≡ to + 1 + k = omega arith in
    ap (copy_row n (from + 1) (to + 1) (poke video to (video from))) here
    ∙ copy_row_inside n (from + 1) (to + 1) (poke video to (video from)) k (omega arith)
        (omega arith)
    ∙ ground arith

-- A column of the region, which is no wider than the screen.
pub record IsColumn (s : Screen) (x : ℕ) : Type 0 where
  pub left : s.scroll_min_x ≤ x
  pub right : x ≤ s.scroll_max_x
  pub fits : s.scroll_max_x < screen_x_size

clear_row_cell :
    (s : Screen) (x y l : ℕ)
    → IsColumn s x
    → clear_row
        (s.scroll_max_x + 1 - s.scroll_min_x)
        (video_addr s.scroll_min_x l)
        s.video
        (video_addr x y)
      ≡ (if y == l then blank else s.video (video_addr x y))
clear_row_cell s x y l c =
    let width : ℕ = s.scroll_max_x + 1 - s.scroll_min_x in
    elim (Bool-cases (y == l)) [
      | inl same ↦ rw same (
          clear_row_inside width (video_addr s.scroll_min_x l) s.video (video_addr x y)
            (ground (arith, c.left)) (ground (arith, c.left, c.right)))
      | inr other ↦ rw other (
          clear_row_outside width (video_addr s.scroll_min_x l) s.video (video_addr x y)
            (ground (arith, c.left, c.right, c.fits)))
    ]

clear_rows_cell :
    (rows l : ℕ) (s : Screen) (x y : ℕ)
    → IsColumn s x
    → (clear_rows rows l s).video (video_addr x y)
      ≡ (if leb l y && ltb y (l + rows) then blank else s.video (video_addr x y))
unfolding clear_rows
clear_rows_cell zero l s x y c = ground arith
clear_rows_cell (suc rows) l s x y c =
    let width : ℕ = s.scroll_max_x + 1 - s.scroll_min_x in
    let s1 : Screen = record s { video = clear_row width (video_addr s.scroll_min_x l) s.video } in
    clear_rows_cell rows (l + 1) s1 x y (record { left = c.left; right = c.right; fits = c.fits })
    ∙ ap (λ v. if leb (l + 1) y && ltb y (l + 1 + rows) then blank else v)
        (clear_row_cell s x y l c)
    ∙ ground arith

copy_row_cell :
    (s : Screen) (x y l lines : ℕ)
    → IsColumn s x
    → copy_row
        (s.scroll_max_x + 1 - s.scroll_min_x)
        (video_addr s.scroll_min_x (l + lines))
        (video_addr s.scroll_min_x l)
        s.video
        (video_addr x y)
      ≡ (if y == l then s.video (video_addr x (y + lines)) else s.video (video_addr x y))
copy_row_cell s x y l lines c =
    let width : ℕ = s.scroll_max_x + 1 - s.scroll_min_x in
    let from : ℕ = video_addr s.scroll_min_x (l + lines) in
    let to : ℕ = video_addr s.scroll_min_x l in
    elim (Bool-cases (y == l)) [
      | inl same ↦
          let here : video_addr x y ≡ to + (x - s.scroll_min_x) = ground (arith, c.left) in
          let there : from + (x - s.scroll_min_x) ≡ video_addr x (y + lines) =
            ground (arith, c.left) in
          rw same (
            ap (copy_row width from to s.video) here
            ∙ copy_row_inside width from to s.video (x - s.scroll_min_x) (omega arith)
                (omega (arith, c.left, c.right))
            ∙ ap s.video there)
      | inr other ↦ rw other (
          copy_row_outside width from to s.video (video_addr x y)
            (ground (arith, c.left, c.right, c.fits)))
    ]

copy_rows_cell :
    (rows lines l : ℕ) (s : Screen) (x y : ℕ)
    → IsColumn s x
    → (copy_rows rows lines l s).video (video_addr x y) ≡ (
        if leb l y && ltb y (l + rows)
        then s.video (video_addr x (y + lines))
        else s.video (video_addr x y))
unfolding copy_rows
copy_rows_cell zero lines l s x y c = ground arith
copy_rows_cell (suc rows) lines l s x y c =
    let width : ℕ = s.scroll_max_x + 1 - s.scroll_min_x in
    let from : ℕ = video_addr s.scroll_min_x (l + lines) in
    let to : ℕ = video_addr s.scroll_min_x l in
    let s1 : Screen = record s { video = copy_row width from to s.video } in
    copy_rows_cell rows lines (l + 1) s1 x y
      (record { left = c.left; right = c.right; fits = c.fits })
    ∙ ap₂ (λ u v. if leb (l + 1) y && ltb y (l + 1 + rows) then u else v)
        (copy_row_cell s x (y + lines) l lines c) (copy_row_cell s x y l lines c)
    ∙ ground arith

copy_rows-IsColumn :
    (rows lines l : ℕ) (s : Screen) (x : ℕ) → IsColumn s x → IsColumn (copy_rows rows lines l s) x
unfolding copy_rows
copy_rows-IsColumn zero lines l s x c = c
copy_rows-IsColumn (suc rows) lines l s x c =
    copy_rows-IsColumn rows lines (l + 1) _ x
      (record { left = c.left; right = c.right; fits = c.fits })

-- Scrolling by any number of lines: in the scrolling region, each cell shows what the cell so many
-- lines below showed, and a blank where that is below the region.
pub cio_scroll_lem :
    (lines x y : ℕ) (s : Screen)
    → IsColumn s x
    → s.scroll_min_y ≤ y
    → y ≤ s.scroll_max_y
    → (cio_scroll lines s).video (video_addr x y)
      ≡ (if leb (y + lines) s.scroll_max_y then s.video (video_addr x (y + lines)) else blank)
unfolding cio_scroll cio_clearscroll
cio_scroll_lem lines x y s c top bottom =
    elim (Bool-cases (ltb (s.scroll_max_y - s.scroll_min_y) lines)) [
      | inl all ↦ simp all (
          clear_rows_cell (s.scroll_max_y + 1 - s.scroll_min_y) s.scroll_min_y s x y c
          ∙ ground (arith, top, bottom))
      | inr some_rows ↦
          let kept : ℕ = s.scroll_max_y - lines + 1 - s.scroll_min_y in
          let s1 : Screen = copy_rows kept lines s.scroll_min_y s in
          simp some_rows (
            clear_rows_cell lines (s.scroll_min_y + kept) s1 x y
              (copy_rows-IsColumn kept lines s.scroll_min_y s x c)
            ∙ ap
                (λ v.
                  if leb (s.scroll_min_y + kept) y && ltb y (s.scroll_min_y + kept + lines)
                  then blank
                  else v)
                (copy_rows_cell kept lines s.scroll_min_y s x y c)
            ∙ ground (arith, top, bottom))
    ]
