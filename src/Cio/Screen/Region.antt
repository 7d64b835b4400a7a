-- ===== src/Cio/Screen/Region.antt =====
-- Where cio.c writes to the screen: the scrolling region.
use os.Base.{
  ◌∙◌, ◌⊎◌, ℕ, zero, suc, ◌+◌, ◌-◌, ◌≤◌, ◌<◌, ◌≡◌, refl, ◌&&◌, arith, leb, Bool-cases, inl, inr,
}
use os.Cio.Screen.{Screen, video_addr, poke, clear_row, clear_rows, copy_row, copy_rows}

-- A cell of the scrolling region.
pub record InRegion (s : Screen) (a : ℕ) : Type 0 where
  pub x : ℕ
  pub y : ℕ
  pub cell : a ≡ video_addr x y
  pub left : s.scroll_min_x ≤ x
  pub right : x ≤ s.scroll_max_x
  pub top : s.scroll_min_y ≤ y
  pub bottom : y ≤ s.scroll_max_y

-- The region stays as it is, and outside it nothing is written.
pub record Within (s s' : Screen) : Type 0 where
  pub left : s'.scroll_min_x ≡ s.scroll_min_x
  pub right : s'.scroll_max_x ≡ s.scroll_max_x
  pub top : s'.scroll_min_y ≡ s.scroll_min_y
  pub bottom : s'.scroll_max_y ≡ s.scroll_max_y
  pub cells : (a : ℕ) → (s'.video a ≡ s.video a) ⊎ InRegion s a

pub Within-refl : (s : Screen) → Within s s
Within-refl s = record {
  left = refl;
  right = refl;
  top = refl;
  bottom = refl;
  cells = λ a. inl refl;
}

InRegion-back : (s s' : Screen) (a : ℕ) → Within s s' → InRegion s' a → InRegion s a
InRegion-back s s' a w i = record {
  x = i.x;
  y = i.y;
  cell = i.cell;
  left = omega (arith, i.left, w.left);
  right = omega (arith, i.right, w.right);
  top = omega (arith, i.top, w.top);
  bottom = omega (arith, i.bottom, w.bottom);
}

pub Within-trans : (s s1 s2 : Screen) → Within s s1 → Within s1 s2 → Within s s2
Within-trans s s1 s2 p q = record {
  left = q.left ∙ p.left;
  right = q.right ∙ p.right;
  top = q.top ∙ p.top;
  bottom = q.bottom ∙ p.bottom;
  cells = λ a. elim (q.cells a) [
    | inr i ↦ inr (InRegion-back s s1 a p i)
    | inl e ↦ elim (p.cells a) [ inr i ↦ inr i | inl f ↦ inl (e ∙ f) ]
  ];
}

pub clear_row_outside :
    (n to : ℕ) (video : ℕ → ℕ) (a : ℕ) → (a < to) ⊎ (to + n ≤ a) → clear_row n to video a ≡ video a
unfolding clear_row
clear_row_outside zero to video a out = refl
clear_row_outside (suc n) to video a out =
    clear_row_outside n (to + 1) (poke video to _) a (omega (arith, out)) ∙ ground (arith, out)

pub copy_row_outside :
    (n from to : ℕ) (video : ℕ → ℕ) (a : ℕ)
    → (a < to) ⊎ (to + n ≤ a)
    → copy_row n from to video a ≡ video a
unfolding copy_row
copy_row_outside zero from to video a out = refl
copy_row_outside (suc n) from to video a out =
    copy_row_outside n (from + 1) (to + 1) (poke video to (video from)) a (omega (arith, out))
    ∙ ground (arith, out)

-- A write to one row of the region.
pub row_Within :
    (s : Screen) (l : ℕ) (video : ℕ → ℕ)
    → s.scroll_min_y ≤ l
    → l ≤ s.scroll_max_y
    → s.scroll_min_x ≤ s.scroll_max_x
    → ((a : ℕ)
        → (a < video_addr s.scroll_min_x l) ⊎ (video_addr s.scroll_max_x l < a)
        → video a ≡ s.video a)
    → Within s (record s { video = video })
row_Within s l video low high wide same = record {
  left = refl;
  right = refl;
  top = refl;
  bottom = refl;
  cells = λ a.
      elim (Bool-cases
        (leb (video_addr s.scroll_min_x l) a && leb a (video_addr s.scroll_max_x l))) [
          | inr out ↦ inl (same a (ground arith))
          | inl row ↦ inr (record {
            x = s.scroll_min_x + (a - video_addr s.scroll_min_x l);
            y = l;
            cell = ground arith;
            left = omega arith;
            right = ground arith;
            top = low;
            bottom = high;
          })
        ];
}

-- `rows` rows from the row `l` on, all in the region.
pub clear_rows-Within :
    (rows l : ℕ) (s : Screen)
    → s.scroll_min_y ≤ l
    → (rows ≡ 0) ⊎ (l + rows ≤ s.scroll_max_y + 1)
    → s.scroll_min_x ≤ s.scroll_max_x
    → Within s (clear_rows rows l s)
unfolding clear_rows
clear_rows-Within zero l s low high wide = Within-refl s
clear_rows-Within (suc rows) l s low high wide =
    let width : ℕ = s.scroll_max_x + 1 - s.scroll_min_x in
    let one : Within s
        (record s { video = clear_row width (video_addr s.scroll_min_x l) s.video }) =
      row_Within s l (clear_row width (video_addr s.scroll_min_x l) s.video) low
        (omega (arith, high)) wide
        (λ a out.
          clear_row_outside width (video_addr s.scroll_min_x l) s.video a (omega (arith, out))) in
    Within-trans s _ _ one (
      clear_rows-Within rows (l + 1)
        (record s { video = clear_row width (video_addr s.scroll_min_x l) s.video }) (omega arith)
        (omega (arith, high)) wide)

pub copy_rows-Within :
    (rows lines l : ℕ) (s : Screen)
    → s.scroll_min_y ≤ l
    → (rows ≡ 0) ⊎ (l + rows ≤ s.scroll_max_y + 1)
    → s.scroll_min_x ≤ s.scroll_max_x
    → Within s (copy_rows rows lines l s)
unfolding copy_rows
copy_rows-Within zero lines l s low high wide = Within-refl s
copy_rows-Within (suc rows) lines l s low high wide =
    let width : ℕ = s.scroll_max_x + 1 - s.scroll_min_x in
    let from : ℕ = video_addr s.scroll_min_x (l + lines) in
    let to : ℕ = video_addr s.scroll_min_x l in
    let one : Within s (record s { video = copy_row width from to s.video }) =
      row_Within s l (copy_row width from to s.video) low (omega (arith, high)) wide
        (λ a out. copy_row_outside width from to s.video a (omega (arith, out))) in
    Within-trans s _ _ one (
      copy_rows-Within rows lines (l + 1) (record s { video = copy_row width from to s.video })
        (omega arith) (omega (arith, high)) wide)
