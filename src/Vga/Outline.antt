-- ===== src/Vga/Outline.antt =====
-- Rectangles, filled or in outline, on the screen and in the back buffer.
use os.Base.{
  ℕ, zero, suc, ◌+◌, ◌*◌, ◌<◌, ◌≡◌, refl, sym, ap, ◌∙◌, Bool, true, false, ◌&&◌, ◌||◌, Option, none,
  some, arith, if◌then◌else◌, Bool-cases, Option-cases, inl, inr,
}
use os.Vga.{
  ℤ, inc, width, height, Buffer, Vga, store, inside, store_at, put_pixel, draw_pixel, paint_row,
  paint, rounds, across, downward, far_edge, rect, fill_row, fill, across_buf, downward_buf,
  rect_buf, vga_draw_rect_buf,
}
use os.Vga.Paint.{
  is_at, covers, at, covers-zero, covers-here, covers-next, put_pixel_lem, paint_lem,
}

module _ (x y : ℤ) (c : ℕ) (buf : Buffer) where
  put_off : inside height y ≡ none → put_pixel x y c buf ≡ buf
  unfolding put_pixel
  put_off off = elim (Option-cases (inside width x)) [ inl e ↦ rw e | inr (px, e) ↦ rw (e, off) ]

  put_on :
      (py : ℕ)
      → inside height y ≡ some py
      → (elim (inside width x) as (λ _. Buffer) [
        | none ↦ buf
        | some px ↦ store buf (py * width + px) c
      ])
        ≡ put_pixel x y c buf
  unfolding put_pixel
  put_on py on = elim (Option-cases (inside width x)) [ inl e ↦ rw e | inr (px, e) ↦ rw (e, on) ]

-- A row off the screen is not drawn.
row_off :
    (c n i : ℕ) (x y : ℤ) (buf : Buffer)
    → inside height y ≡ none
    → paint_row (λ k. some c) n i x y buf ≡ buf
unfolding paint_row draw_pixel
row_off c zero i x y buf off = refl
row_off c (suc n) i x y buf off = row_off c n (i + 1) (inc x) y _ off ∙ put_off x y c buf off

fill_row-paint_row :
    (n i : ℕ) (x y : ℤ) (py c : ℕ) (buf : Buffer)
    → inside height y ≡ some py
    → fill_row n x py c buf ≡ paint_row (λ k. some c) n i x y buf
unfolding fill_row paint_row draw_pixel
fill_row-paint_row zero i x y py c buf on = refl
fill_row-paint_row (suc n) i x y py c buf on =
    ap (fill_row n (inc x) py c) (put_on x y c buf py on)
    ∙ fill_row-paint_row n (i + 1) (inc x) y py c _ on

fill-paint :
    (h w j : ℕ) (x y : ℤ) (c : ℕ) (buf : Buffer)
    → fill h w x y c buf ≡ paint (λ k i. some c) h w j x y buf
unfolding fill paint
fill-paint zero w j x y c buf = refl
fill-paint (suc h) w j x y c buf = elim (Option-cases (inside height y)) [
  | inl off ↦ rw off (
      fill-paint h w (j + 1) x (inc y) c buf
      ∙ ap (paint (λ k i. some c) h w (j + 1) x (inc y)) (sym (row_off c w 0 x y buf off)))
  | inr (py, on) ↦ rw on (
      fill-paint h w (j + 1) x (inc y) c _
      ∙ ap (paint (λ k i. some c) h w (j + 1) x (inc y)) (fill_row-paint_row w 0 x y py c buf on))
]

across_buf-across :
    (n : ℕ) (x top bottom : ℤ) (c : ℕ) (buf : Buffer)
    → across_buf n x top bottom c buf ≡ across n x top bottom c buf
unfolding across_buf across
across_buf-across zero x top bottom c buf = refl
across_buf-across (suc n) x top bottom c buf =
    across_buf-across n (inc x) top bottom c _ ∙ ap (across n (inc x) top bottom c) both
  where
    both :
        (elim (inside width x) as (λ _. Buffer) [
          | none ↦ buf
          | some px ↦
              store_at
                (some px)
                (inside height bottom)
                c
                (store_at (some px) (inside height top) c buf)
        ])
        ≡ put_pixel x bottom c (put_pixel x top c buf)
    both = elim (Option-cases (inside width x)) [ inl e ↦ rw e | inr (px, e) ↦ rw e ]

store_off : (o : Option ℕ) (c : ℕ) (buf : Buffer) → store_at o none c buf ≡ buf
store_off none c buf = refl
store_off (some px) c buf = refl

downward_buf-downward :
    (n : ℕ) (y left right : ℤ) (c : ℕ) (buf : Buffer)
    → downward_buf n y left right c buf ≡ downward n y left right c buf
unfolding downward_buf downward
downward_buf-downward zero y left right c buf = refl
downward_buf-downward (suc n) y left right c buf =
    downward_buf-downward n (inc y) left right c _
    ∙ ap (downward n (inc y) left right c) (elim (Option-cases (inside height y)) [
      | inl e ↦
          rw e (sym (store_off (inside width right) c _ ∙ store_off (inside width left) c buf))
      | inr (py, e) ↦ rw e
    ])

-- vga_draw_rect_buf draws in the back buffer what vga_draw_rect draws on the screen.
pub rect_buf-rect :
    (x y w h : ℤ) (c : ℕ) (filled : Bool) (buf : Buffer)
    → rect_buf x y w h c filled buf ≡ rect x y w h c filled buf
unfolding rect_buf rect
rect_buf-rect x y w h c true buf = fill-paint (rounds h) (rounds w) 0 x y c buf
rect_buf-rect x y w h c false buf =
    downward_buf-downward (rounds h) y x (far_edge x w) c _
    ∙ ap (downward (rounds h) y x (far_edge x w) c)
        (across_buf-across (rounds w) x y (far_edge y h) c buf)

-- The pixel that an outline's edges leave.
abbrev pub edge : Bool → ℕ → ℕ → ℕ
edge on c old = if on then c else old

-- The rectangle's pixels: all that it covers, or those on its edges.
abbrev pub in_rect : ℕ → ℕ → ℤ → ℤ → ℤ → ℤ → Bool → Bool
in_rect qx qy x y w h true = covers x (rounds w) qx && covers y (rounds h) qy
in_rect qx qy x y w h false =
    (covers x (rounds w) qx && (is_at y qy || is_at (far_edge y h) qy))
    || (covers y (rounds h) qy && (is_at x qx || is_at (far_edge x w) qx))

module _ (qx qy : ℕ) (right : qx < width) (low : qy < height) where
  across_lem :
      (n : ℕ) (x top bottom : ℤ) (c : ℕ) (buf : Buffer)
      → across n x top bottom c buf (at qx qy)
        ≡ edge (covers x n qx && (is_at top qy || is_at bottom qy)) c (buf (at qx qy))
  unfolding across
  across_lem zero x top bottom c buf = rw (covers-zero x qx)
  across_lem (suc n) x top bottom c buf = elim (Bool-cases (is_at x qx)) [
    | inl here ↦
        let (c1, c2, d) = covers-here x n qx here in
        across_lem n (inc x) top bottom c _
        ∙ rw
            (
              c1,
              c2,
              put_pixel_lem qx qy right low x bottom c (put_pixel x top c buf),
              put_pixel_lem qx qy right low x top c buf,
              here,
            )
            (ground arith)
    | inr next ↦
        across_lem n (inc x) top bottom c _
        ∙ rw (
          covers-next x n qx next,
          put_pixel_lem qx qy right low x bottom c (put_pixel x top c buf),
          put_pixel_lem qx qy right low x top c buf,
          next,
        )
  ]

  downward_lem :
      (n : ℕ) (y left rightmost : ℤ) (c : ℕ) (buf : Buffer)
      → downward n y left rightmost c buf (at qx qy)
        ≡ edge (covers y n qy && (is_at left qx || is_at rightmost qx)) c (buf (at qx qy))
  unfolding downward
  downward_lem zero y left rightmost c buf = rw (covers-zero y qy)
  downward_lem (suc n) y left rightmost c buf = elim (Bool-cases (is_at y qy)) [
    | inl here ↦
        let (c1, c2, d) = covers-here y n qy here in
        downward_lem n (inc y) left rightmost c _
        ∙ rw
            (
              c1,
              c2,
              put_pixel_lem qx qy right low rightmost y c (put_pixel left y c buf),
              put_pixel_lem qx qy right low left y c buf,
              here,
            )
            (ground arith)
    | inr next ↦
        downward_lem n (inc y) left rightmost c _
        ∙ rw
            (
              covers-next y n qy next,
              put_pixel_lem qx qy right low rightmost y c (put_pixel left y c buf),
              put_pixel_lem qx qy right low left y c buf,
              next,
            )
            (ground arith)
  ]

  pub rect_lem :
      (x y w h : ℤ) (c : ℕ) (filled : Bool) (buf : Buffer)
      → rect x y w h c filled buf (at qx qy)
        ≡ edge (in_rect qx qy x y w h filled) c (buf (at qx qy))
  unfolding rect
  rect_lem x y w h c true buf =
      paint_lem qx qy right low (λ j i. some c) (rounds h) (rounds w) 0 x y buf
  rect_lem x y w h c false buf =
      downward_lem (rounds h) y x (far_edge x w) c _
      ∙ ap (edge (covers y (rounds h) qy && (is_at x qx || is_at (far_edge x w) qx)) c)
          (across_lem (rounds w) x y (far_edge y h) c buf)
      ∙ ground arith

-- A rectangle, filled or in outline, drawn with vga_draw_rect_buf: each pixel of the screen's 320 by
-- 200 has the color in the back buffer if it is in the rectangle (of the outline: on one of its four
-- edges), and else the color it had, whatever part of the rectangle is off the screen. The screen
-- is as it was.
pub vga_draw_rect_buf_lem :
    (qx qy : ℕ) (x y w h : ℤ) (c : ℕ) (filled : Bool) (v : Vga) (right : qx < width)
    (low : qy < height)
    → ((vga_draw_rect_buf x y w h c filled v).back (at qx qy)
        ≡ (if in_rect qx qy x y w h filled then c else v.back (at qx qy)))
      × ((vga_draw_rect_buf x y w h c filled v).screen ≡ v.screen)
unfolding vga_draw_rect_buf
vga_draw_rect_buf_lem qx qy x y w h c filled v right low = (
  ap (λ b. b (at qx qy)) (rect_buf-rect x y w h c filled v.back)
      ∙ rect_lem qx qy right low x y w h c filled v.back,
  refl,
)
