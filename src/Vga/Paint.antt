-- ===== src/Vga/Paint.antt =====
-- What the drawing loops leave in each pixel of the screen.
use os.Base.{
  ℕ, zero, suc, ◌+◌, ◌-◌, ◌*◌, ◌<◌, ◌≡◌, refl, ap, ◌∙◌, Bool, true, false, ◌&&◌, Option, none, some,
  arith, ltb, leb, ◌==◌, if◌then◌else◌, Bool-cases, inl, inr,
}
use os.Vga.{ℤ, inc, width, height, Buffer, put_pixel, draw_pixel, paint_row, paint}

-- The int is the coordinate `q`.
abbrev pub is_at : ℤ → ℕ → Bool
is_at (ℤ.pos a) q = a == q
is_at (ℤ.negsuc a) q = false

-- `z <= q && q < z + n`
abbrev pub covers : ℤ → ℕ → ℕ → Bool
covers (ℤ.pos a) n q = leb a q && ltb q (a + n)
covers (ℤ.negsuc a) n q = ltb (q + a + 1) n

-- `q - z`, for a `q` that is not less.
abbrev pub distance : ℤ → ℕ → ℕ
distance (ℤ.pos a) q = q - a
distance (ℤ.negsuc a) q = q + a + 1

-- The color of a pixel, or what was there.
abbrev pub pick : Option ℕ → ℕ → ℕ
pick none old = old
pick (some c) old = c

abbrev pub at : ℕ → ℕ → ℕ
at x y = y * width + x

pub covers-zero : (z : ℤ) (q : ℕ) → covers z 0 q ≡ false
covers-zero (ℤ.pos a) q = ground arith
covers-zero (ℤ.negsuc a) q = ground arith

pub covers-here :
    (z : ℤ) (n q : ℕ)
    → is_at z q ≡ true
    → (covers z (suc n) q ≡ true) × (covers (inc z) n q ≡ false) × (distance z q ≡ 0)
covers-here (ℤ.pos a) n q e = (ground arith, ground arith, ground arith)
covers-here (ℤ.negsuc a) n q e = absurd (ground arith)

pub covers-next : (z : ℤ) (n q : ℕ) → is_at z q ≡ false → covers z (suc n) q ≡ covers (inc z) n q
covers-next (ℤ.pos a) n q e = ground arith
covers-next (ℤ.negsuc zero) n q e = ground arith
covers-next (ℤ.negsuc (suc a)) n q e = ground arith

pub distance-next :
    (z : ℤ) (n q : ℕ)
    → is_at z q ≡ false
    → covers z (suc n) q ≡ true
    → distance z q ≡ suc (distance (inc z) q)
distance-next (ℤ.pos a) n q e c = ground arith
distance-next (ℤ.negsuc zero) n q e c = ground arith
distance-next (ℤ.negsuc (suc a)) n q e c = ground arith

module _ (qx qy : ℕ) (right : qx < width) (low : qy < height) where
  pub put_pixel_lem :
      (x y : ℤ) (c : ℕ) (buf : Buffer)
      → put_pixel x y c buf (at qx qy) ≡ (if is_at x qx && is_at y qy then c else buf (at qx qy))
  unfolding put_pixel
  put_pixel_lem (ℤ.negsuc a) y c buf = refl
  put_pixel_lem (ℤ.pos a) (ℤ.negsuc b) c buf = elim (Bool-cases (ltb a width)) [
    | inl e ↦ rw e (ground arith)
    | inr e ↦ rw e (ground arith)
  ]
  put_pixel_lem (ℤ.pos a) (ℤ.pos b) c buf = elim (Bool-cases (ltb a width)) [
    | inl e ↦ elim (Bool-cases (ltb b height)) [
      | inl f ↦ rw (e, f) (ground arith)
      | inr f ↦ rw (e, f) (ground arith)
    ]
    | inr e ↦ rw e (ground arith)
  ]

  -- The pixel that the loop over a row leaves.
  abbrev pub row_pixel : (ℕ → Option ℕ) → ℕ → ℕ → ℤ → ℤ → ℕ → ℕ
  row_pixel picture n i x y old =
      if covers x n qx && is_at y qy then pick (picture (i + distance x qx)) old else old

  draw_pixel_lem :
      (p : Option ℕ) (x y : ℤ) (buf : Buffer)
      → draw_pixel p x y buf (at qx qy)
        ≡ (if is_at x qx && is_at y qy then pick p (buf (at qx qy)) else buf (at qx qy))
  unfolding draw_pixel
  draw_pixel_lem none x y buf = ground arith
  draw_pixel_lem (some c) x y buf = put_pixel_lem x y c buf

  row_step :
      (picture : ℕ → Option ℕ) (n i : ℕ) (x y : ℤ) (old : ℕ)
      → row_pixel picture n
          (i + 1)
          (inc x)
          y
          (if is_at x qx && is_at y qy then pick (picture i) old else old)
        ≡ row_pixel picture (suc n) i x y old
  row_step picture n i x y old = elim (Bool-cases (is_at y qy)) [
    | inr off ↦ rw off (ground arith)
    | inl on ↦ elim (Bool-cases (is_at x qx)) [
      | inl here ↦
          let (c1, c2, d) = covers-here x n qx here in
          rw (on, here, c1, c2, d) (ap (λ k. pick (picture k) old) (omega arith))
      | inr next ↦
          rw (on, next, covers-next x n qx next)
            (elim (Bool-cases (covers (inc x) n qx)) [
              | inl c ↦
                  let d = distance-next x n qx next (covers-next x n qx next ∙ c) in
                  rw (c, d) (ap (λ k. pick (picture k) old) (omega arith))
              | inr c ↦ rw c
            ])
    ]
  ]

  pub paint_row_lem :
      (picture : ℕ → Option ℕ) (n i : ℕ) (x y : ℤ) (buf : Buffer)
      → paint_row picture n i x y buf (at qx qy) ≡ row_pixel picture n i x y (buf (at qx qy))
  unfolding paint_row
  paint_row_lem picture zero i x y buf = rw (covers-zero x qx)
  paint_row_lem picture (suc n) i x y buf =
      paint_row_lem picture n (i + 1) (inc x) y _
      ∙ ap (row_pixel picture n (i + 1) (inc x) y) (draw_pixel_lem (picture i) x y buf)
      ∙ row_step picture n i x y (buf (at qx qy))

  -- The pixel that the loop over rows leaves.
  abbrev pub painted : (ℕ → ℕ → Option ℕ) → ℕ → ℕ → ℕ → ℤ → ℤ → ℕ → ℕ
  painted picture h w j x y old =
      if covers x w qx && covers y h qy
      then pick (picture (j + distance y qy) (distance x qx)) old
      else old

  paint_step :
      (picture : ℕ → ℕ → Option ℕ) (h w j : ℕ) (x y : ℤ) (old : ℕ)
      → painted picture h w (j + 1) x (inc y) (row_pixel (picture j) w 0 x y old)
        ≡ painted picture (suc h) w j x y old
  paint_step picture h w j x y old = elim (Bool-cases (covers x w qx)) [
    | inr off ↦ rw off
    | inl on ↦ elim (Bool-cases (is_at y qy)) [
      | inl here ↦
          let (c1, c2, d) = covers-here y h qy here in
          let z : 0 + distance x qx ≡ distance x qx = omega arith in
          let z' : j + 0 ≡ j = omega arith in rw (on, here, c1, c2, d, z, z')
      | inr next ↦
          rw (on, next, covers-next y h qy next)
            (elim (Bool-cases (covers (inc y) h qy)) [
              | inl c ↦
                  let d = distance-next y h qy next (covers-next y h qy next ∙ c) in
                  rw (c, d) (ap (λ k. pick (picture k (distance x qx)) old) (omega arith))
              | inr c ↦ rw c
            ])
    ]
  ]

  pub paint_lem :
      (picture : ℕ → ℕ → Option ℕ) (h w j : ℕ) (x y : ℤ) (buf : Buffer)
      → paint picture h w j x y buf (at qx qy) ≡ painted picture h w j x y (buf (at qx qy))
  unfolding paint
  paint_lem picture zero w j x y buf = elim (Bool-cases (covers x w qx)) [
    | inl on ↦ rw (on, covers-zero y qy)
    | inr off ↦ rw off
  ]
  paint_lem picture (suc h) w j x y buf =
      paint_lem picture h w (j + 1) x (inc y) _
      ∙ ap (painted picture h w (j + 1) x (inc y)) (paint_row_lem (picture j) w 0 x y buf)
      ∙ paint_step picture h w j x y (buf (at qx qy))
