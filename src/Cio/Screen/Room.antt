-- ===== src/Cio/Screen/Room.antt =====
-- The cursor of cio.c, and what makes room for the next character by scrolling.
use os.Base.{◌∙◌, ◌⊎◌, ℕ, zero, suc, ◌+◌, ◌-◌, ◌≤◌, ◌≡◌, refl, arith, ltb, Bool-cases, inl, inr}
use os.Cio.Screen.{Screen, clear_rows, cio_clearscroll, copy_rows, cio_scroll, make_room}
use os.Cio.Screen.Region.{Within, Within-refl, Within-trans, clear_rows-Within, copy_rows-Within}

-- The scrolling region is not empty. The cursor is in it, or in the line below it, which makes the
-- next character scroll.
pub record IsInside (s : Screen) : Type 0 where
  pub left : s.scroll_min_x ≤ s.curr_x
  pub right : s.curr_x ≤ s.scroll_max_x
  pub top : s.scroll_min_y ≤ s.curr_y
  pub bottom : s.curr_y ≤ s.scroll_max_y + 1
  pub height : s.scroll_min_y ≤ s.scroll_max_y

-- Whatever a write to the record leaves alone.
pub moved_Within : (s : Screen) (x y : ℕ) → Within s (record s { curr_x = x; curr_y = y })
moved_Within s x y = record {
  left = refl;
  right = refl;
  top = refl;
  bottom = refl;
  cells = λ a. inl refl;
}

pub clearscroll-Within :
    (s : Screen)
    → s.scroll_min_x ≤ s.scroll_max_x
    → s.scroll_min_y ≤ s.scroll_max_y
    → Within s (cio_clearscroll s)
unfolding cio_clearscroll
clearscroll-Within s wide high =
    clear_rows-Within (s.scroll_max_y + 1 - s.scroll_min_y) s.scroll_min_y s (omega arith)
      (omega arith) wide

pub clear_rows_cursor : (rows l : ℕ) (s : Screen) → (clear_rows rows l s).curr_x ≡ s.curr_x
unfolding clear_rows
clear_rows_cursor zero l s = refl
clear_rows_cursor (suc rows) l s = clear_rows_cursor rows (l + 1) _

pub copy_rows_cursor :
    (rows lines l : ℕ) (s : Screen) → (copy_rows rows lines l s).curr_x ≡ s.curr_x
unfolding copy_rows
copy_rows_cursor zero lines l s = refl
copy_rows_cursor (suc rows) lines l s = copy_rows_cursor rows lines (l + 1) _

-- What an operation leaves: the region, what lies outside it, and a cursor in the line `y` at most.
pub record Put (s : Screen) (y : ℕ) (s' : Screen) : Type 0 where
  pub within : Within s s'
  pub left : s.scroll_min_x ≤ s'.curr_x
  pub right : s'.curr_x ≤ s.scroll_max_x
  pub top : s.scroll_min_y ≤ s'.curr_y
  pub bottom : s'.curr_y ≤ y

pub scroll_up-Within :
    (lines : ℕ) (s : Screen)
    → s.scroll_min_x ≤ s.scroll_max_x
    → s.scroll_min_y ≤ s.scroll_max_y
    → lines ≤ s.scroll_max_y - s.scroll_min_y
    → let kept = s.scroll_max_y - lines + 1 - s.scroll_min_y in
      Within s (clear_rows lines (s.scroll_min_y + kept) (copy_rows kept lines s.scroll_min_y s))
scroll_up-Within lines s wide high few =
    let kept : ℕ = s.scroll_max_y - lines + 1 - s.scroll_min_y in
    let s1 : Screen = copy_rows kept lines s.scroll_min_y s in
    let copied : Within s s1 =
      copy_rows-Within kept lines s.scroll_min_y s (omega arith) (omega arith) wide in
    Within-trans s _ _ copied (
      clear_rows-Within lines (s.scroll_min_y + kept) s1 (omega (arith, copied.top))
        (omega (arith, copied.bottom)) (omega (arith, copied.left, copied.right)))

-- cio_scroll leaves the cursor in its column, or at the left of the region.
pub record Scrolled (s s' : Screen) : Type 0 where
  pub within : Within s s'
  pub column : (s'.curr_x ≡ s.curr_x) ⊎ (s'.curr_x ≡ s.scroll_min_x)

pub scroll-Scrolled :
    (lines : ℕ) (s : Screen)
    → s.scroll_min_x ≤ s.scroll_max_x
    → s.scroll_min_y ≤ s.scroll_max_y
    → Scrolled s (cio_scroll lines s)
unfolding cio_scroll
scroll-Scrolled lines s wide high =
    elim (Bool-cases (ltb (s.scroll_max_y - s.scroll_min_y) lines)) [
      | inl all ↦
          let cleared = clearscroll-Within s wide high in
          simp all (record {
            within = Within-trans s _ _ cleared (moved_Within _ _ _);
            column = inr cleared.left;
          })
      | inr some_rows ↦
          let kept : ℕ = s.scroll_max_y - lines + 1 - s.scroll_min_y in
          simp some_rows (record {
            within = scroll_up-Within lines s wide high (ground arith);
            column = inl (
                clear_rows_cursor lines (s.scroll_min_y + kept)
                  (copy_rows kept lines s.scroll_min_y s)
                ∙ copy_rows_cursor kept lines s.scroll_min_y s);
          })
    ]

pub make_room-Put : (s : Screen) → IsInside s → Put s s.scroll_max_y (make_room s)
unfolding make_room
make_room-Put s i = elim (Bool-cases (ltb s.scroll_max_y s.curr_y)) [
  | inr room ↦ simp room (record {
    within = Within-refl s;
    left = i.left;
    right = i.right;
    top = i.top;
    bottom = ground arith;
  })
  | inl below ↦
      let r =
        scroll-Scrolled (s.curr_y - s.scroll_max_y) s (omega (arith, i.left, i.right)) i.height in
      simp below (record {
        within = Within-trans s _ _ r.within (moved_Within _ _ _);
        left = omega (arith, r.column, i.left);
        right = omega (arith, r.column, i.left, i.right);
        top = i.height;
        bottom = omega arith;
      })
]
