-- ===== src/TextMode/Bounds.antt =====
-- kernel/src/arch/x86_64/textmode.c: the cursor stays in the text, and nothing is written outside
-- the text and the screen.
use bikeshed.Prelude.{
  ℕ, Bool, true, false, zero, suc, ◌+◌, ◌-◌, ◌*◌, ◌/◌, ◌<◌, ◌≤◌, ◌≡◌, refl, ◌∙◌, ◌==◌, arith,
  Bool-cases, inl, inr, if◌then◌else◌, leb, ltb, ◌||◌, List, [], ◌∷◌,
}
use bikeshed.TextMode.{
  max_x, max_y, num_lines, Cell, Console, set_cell, clear_cells, clear_screen, display_line,
  display_lines, display_page, page_up, page_down, scroll_to_bottom, put_cell, next_line, step_back,
  step_on, text_mode_char, text_mode_reset,
}

pub record IsValid (s : Console) : Type 0 where
  pub column : s.write_x < max_x
  pub line : s.write_y < num_lines
  pub page : s.page_offset < 100

-- Nothing past the end of the text, and nothing past the end of the screen, differs.
pub record InBounds (s s' : Console) : Type 0 where
  pub text : (i : ℕ) → 200000 ≤ i → s'.text i ≡ s.text i
  pub video : (i : ℕ) → 2000 ≤ i → s'.video i ≡ s.video i

InBounds-trans : (a b c : Console) → InBounds a b → InBounds b c → InBounds a c
InBounds-trans a b c p q = record {
  text = λ i h. q.text i h ∙ p.text i h;
  video = λ i h. q.video i h ∙ p.video i h;
}

clear_cells-above : (n : ℕ) (v : ℕ → Cell) (i : ℕ) → n ≤ i → clear_cells n v i ≡ v i
unfolding clear_cells
clear_cells-above zero v i h = refl
clear_cells-above (suc n) v i h =
    clear_cells-above n (set_cell v n (0, 0)) i (omega arith) ∙ ground arith

clear_screen-InBounds : (s : Console) → InBounds s (clear_screen s)
unfolding clear_screen
clear_screen-InBounds s = record {
  text = λ i h. refl;
  video = λ i h. clear_cells-above 2000 s.video i h;
}

display_line-above :
    (n : ℕ) (text : ℕ → ℕ) (ty y : ℕ) (v : ℕ → Cell) (i : ℕ)
    → y < max_y
    → n ≤ max_x
    → 2000 ≤ i
    → display_line n text ty y v i ≡ v i
unfolding display_line
display_line-above zero text ty y v i hy hn h = refl
display_line-above (suc n) text ty y v i hy hn h =
    let at = y * max_x + (max_x - suc n) in
    let cell : Cell = (text (ty * max_x + (max_x - suc n)), 0x9) in
    display_line-above n text ty y (set_cell v at cell) i hy (omega arith) h ∙ ground arith

display_lines-above :
    (m : ℕ) (text : ℕ → ℕ) (ty y : ℕ) (v : ℕ → Cell) (i : ℕ)
    → y + m ≤ max_y
    → 2000 ≤ i
    → display_lines m text ty y v i ≡ v i
unfolding display_lines
display_lines-above zero text ty y v i hy h = refl
display_lines-above (suc m) text ty y v i hy h =
    display_lines-above m text (suc ty) (suc y) (display_line max_x text ty y v) i (omega arith) h
    ∙ display_line-above max_x text ty y v i (omega arith) (omega arith) h

display_page-InBounds : (s : Console) → InBounds s (display_page s)
unfolding display_page clear_screen
display_page-InBounds s = record {
  text = λ i h. refl;
  video = λ i h.
      display_lines-above max_y s.text (s.page_offset * max_y) 0 (clear_cells 2000 s.video) i
        (omega arith) h
      ∙ clear_cells-above 2000 s.video i h;
}

scroll_to_bottom-InBounds : (s : Console) → InBounds s (scroll_to_bottom s)
unfolding scroll_to_bottom
scroll_to_bottom-InBounds s = elim (Bool-cases (s.write_y / max_y == s.page_offset)) [
  | inl here ↦ rw here (record { text = λ i h. refl; video = λ i h. refl })
  | inr away ↦
      let b = clear_screen-InBounds (record s { page_offset = s.write_y / max_y }) in
      rw away (record { text = b.text; video = b.video })
]

scroll_to_bottom-IsValid : (s : Console) → IsValid s → IsValid (scroll_to_bottom s)
unfolding scroll_to_bottom clear_screen
scroll_to_bottom-IsValid s v = ground arith

put_cell-InBounds : (c : ℕ) (s : Console) → IsValid s → InBounds s (put_cell c s)
unfolding put_cell
put_cell-InBounds c s v = record { text = λ i h. ground arith; video = λ i h. ground arith }

-- The cursor moves write nothing.
put_cell-IsValid : (c : ℕ) (s : Console) → IsValid s → IsValid (put_cell c s)
unfolding put_cell
put_cell-IsValid c s v = record { column = v.column; line = v.line; page = v.page }

step_back-IsValid : (s : Console) → IsValid s → IsValid (step_back s) × InBounds s (step_back s)
unfolding step_back
step_back-IsValid s v = elim (Bool-cases (s.write_x == 0)) [
  | inl first ↦ rw first (ground arith, record { text = λ i h. refl; video = λ i h. refl })
  | inr later ↦ rw later (ground arith, record { text = λ i h. refl; video = λ i h. refl })
]

next_line-IsValid : (s : Console) → IsValid s → IsValid (next_line s) × InBounds s (next_line s)
unfolding next_line
next_line-IsValid s v = (ground arith, record { text = λ i h. refl; video = λ i h. refl })

step_on-IsValid : (s : Console) → IsValid s → IsValid (step_on s) × InBounds s (step_on s)
unfolding step_on
step_on-IsValid s v = elim (Bool-cases (leb max_x (s.write_x + 1))) [
  | inl wrap ↦ rw wrap (next_line-IsValid s v)
  | inr on ↦ rw on (ground arith, record { text = λ i h. refl; video = λ i h. refl })
]

Kept : Console → Console → Type 0
Kept s s' = IsValid s' × InBounds s s'

Kept-trans : (a b c : Console) → Kept a b → Kept b c → Kept a c
unfolding Kept
Kept-trans a b c p q = (q.0, InBounds-trans a b c p.1 q.1)

if_Kept :
    (s : Console) (b : Bool) (x y : Console) → Kept s x → Kept s y → Kept s (if b then x else y)
if_Kept s true x y p q = p
if_Kept s false x y p q = q

put_cell-Kept : (c : ℕ) (s : Console) → IsValid s → Kept s (put_cell c s)
unfolding Kept
put_cell-Kept c s v = (put_cell-IsValid c s v, put_cell-InBounds c s v)

text_mode_char-Kept : (c : ℕ) (s : Console) → IsValid s → Kept s (text_mode_char c s)
unfolding text_mode_char Kept
text_mode_char-Kept c s v =
    let s1 = scroll_to_bottom s in
    let v1 : Kept s s1 = (scroll_to_bottom-IsValid s v, scroll_to_bottom-InBounds s) in
    let back = step_back-IsValid s1 v1.0 in
    let put1 = put_cell-Kept c s1 v1.0 in
    if_Kept s (c == b'\r' || c == b'\n') (next_line s1) _
      (Kept-trans s s1 (next_line s1) v1 (next_line-IsValid s1 v1.0))
      (if_Kept s (c == 8) (put_cell b' ' (step_back s1)) (step_on (put_cell c s1))
        (Kept-trans s s1 _ v1
          (Kept-trans s1 (step_back s1) _ back (put_cell-Kept b' ' (step_back s1) back.0)))
        (Kept-trans s s1 _ v1
          (Kept-trans s1 (put_cell c s1) _ put1 (step_on-IsValid (put_cell c s1) put1.0))))

page_up-Kept : (s : Console) → IsValid s → Kept s (page_up s)
unfolding page_up Kept display_page clear_screen
page_up-Kept s v =
    let b = display_page-InBounds (record s { page_offset = s.page_offset - 1 }) in
    (
      record { column = v.column; line = v.line; page = omega (arith, v.page) },
      record { text = b.text; video = b.video },
    )

page_down-Kept : (s : Console) → IsValid s → Kept s (page_down s)
unfolding page_down Kept display_page clear_screen
page_down-Kept s v =
    let o = if ltb s.page_offset (s.write_y / max_y) then s.page_offset + 1 else s.page_offset in
    let b = display_page-InBounds (record s { page_offset = o }) in
    (
      record { column = v.column; line = v.line; page = ground arith },
      record { text = b.text; video = b.video },
    )

-- What the rest of the kernel does to the console.
pub data Action : Type 0 where
  print : ℕ → Action
  up down reset : Action

pub act : Action → Console → Console
act (print c) s = text_mode_char c s
act up s = page_up s
act down s = page_down s
act reset s = text_mode_reset s

pub act_all : List Action → Console → Console
act_all [] s = s
act_all (a ∷ as_) s = act_all as_ (act a s)

act-Kept : (a : Action) (s : Console) → IsValid s → Kept s (act a s)
unfolding act text_mode_reset Kept
act-Kept (print c) s v = text_mode_char-Kept c s v
act-Kept up s v = page_up-Kept s v
act-Kept down s v = page_down-Kept s v
act-Kept reset s v = (ground arith, record { text = λ i h. refl; video = λ i h. refl })

-- From a console whose cursor and page are in the text, whatever is printed and however often the
-- pages are turned, they stay in the text, and no cell past the 2500 lines of the text or past the
-- 25 lines of the screen is written.
pub act_all-IsValid :
    (actions : List Action) (s : Console)
    → IsValid s
    → IsValid (act_all actions s) × InBounds s (act_all actions s)
unfolding act_all Kept
act_all-IsValid [] s v = (v, record { text = λ i h. refl; video = λ i h. refl })
act_all-IsValid (a ∷ rest) s v =
    let k = act-Kept a s v in Kept-trans s (act a s) _ k (act_all-IsValid rest (act a s) k.0)
