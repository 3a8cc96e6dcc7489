-- ===== src/Vga/Shown.antt =====
-- programs/src/init/vga.c: a text that fits the line is on the screen after it was written.
use bikeshed.Prelude.{
  ℕ, zero, suc, ◌+◌, ◌*◌, ◌<◌, ◌≤◌, ◌≡◌, ◌≢◌, refl, ◌∙◌, ap, sym, false, ◌==◌, ◌||◌, arith, leb,
  List, [], ◌∷◌, length, get_elem?, some, All,
}
use mathlib.Core.Path.{subst}
use bikeshed.Vga.{max_x, Screen, put_cell, step_on, text_mode_char, text_mode_string}

-- Neither a line break nor a backspace.
abbrev pub IsPrinted : ℕ → Type 0
IsPrinted c = (c ≢ b'\r') × (c ≢ b'\n') × (c ≢ 8)

text_mode_char-printed :
    (c : ℕ) (s : Screen) → IsPrinted c → text_mode_char c s ≡ step_on (put_cell c s)
unfolding text_mode_char
text_mode_char-printed c s p =
    let a : (c == b'\r' || c == b'\n') ≡ false = ground arith in
    let b : (c == 8) ≡ false = ground arith in rw (a, b) refl

-- Inside a line.
char_within :
    (c : ℕ) (s : Screen)
    → IsPrinted c
    → suc s.x < max_x
    → text_mode_char c s ≡ record (put_cell c s) { x = s.x + 1 }
unfolding step_on put_cell
char_within c s p h =
    let on : leb max_x (s.x + 1) ≡ false = ground arith in text_mode_char-printed c s p ∙ rw on refl

-- What writing `str` at the cursor of `s` leaves.
pub record Shows (str : List ℕ) (s s' : Screen) : Type 0 where
  pub column : s'.x ≡ s.x + length str
  pub line : s'.y ≡ s.y
  pub color : s'.color ≡ s.color
  pub before : (i : ℕ) → i < s.y * max_x + s.x → s'.video i ≡ s.video i
  pub behind : (i : ℕ) → s.y * max_x + s.x + length str ≤ i → s'.video i ≡ s.video i
  pub shown : (i c : ℕ) → get_elem? str i ≡ some c → s'.video (s.y * max_x + s.x + i) ≡ (c, s.color)

Shows-cons :
    (c : ℕ) (str : List ℕ) (s s' : Screen)
    → Shows str (record (put_cell c s) { x = s.x + 1 }) s'
    → Shows (c ∷ str) s s'
unfolding put_cell
Shows-cons c str s s' h = record {
  column = omega (arith, h.column);
  line = h.line;
  color = h.color;
  before = λ i lt. h.before i (omega arith) ∙ ground arith;
  behind = λ i le. h.behind i (omega arith) ∙ ground arith;
  shown = shown_at;
}
  where
    shown_at :
        (i d : ℕ) → get_elem? (c ∷ str) i ≡ some d → s'.video (s.y * max_x + s.x + i) ≡ (d, s.color)
    shown_at zero d e =
        let at : s.y * max_x + s.x + 0 ≡ s.y * max_x + s.x = omega arith in
        ap s'.video at ∙ h.before (s.y * max_x + s.x) (omega arith) ∙ ground arith
    shown_at (suc i) d e =
        let at : s.y * max_x + s.x + suc i ≡ s.y * max_x + (s.x + 1) + i = omega arith in
        ap s'.video at ∙ h.shown i d e

-- A text without line breaks and backspaces that ends before the end of the line stands on the
-- screen after `text_mode_string`, in the current colour; the cursor is behind it, and no other
-- cell has changed.
pub text_mode_string-Shows :
    (str : List ℕ) (s : Screen)
    → All IsPrinted str
    → s.x + length str < max_x
    → Shows str s (text_mode_string str s)
unfolding text_mode_string
text_mode_string-Shows [] s p h = record {
  column = omega arith;
  line = refl;
  color = refl;
  before = λ i lt. refl;
  behind = λ i le. refl;
  shown = λ i c e. absurd (cc);
}
text_mode_string-Shows (c ∷ str) s p h =
    let s1 = record (put_cell c s) { x = s.x + 1 } in
    let here = ap (text_mode_string str) (char_within c s p.0 (omega arith)) in
    subst (Shows (c ∷ str) s) (sym here) (
      Shows-cons c str s (text_mode_string str s1)
        (text_mode_string-Shows str s1 p.1 (unfold put_cell in omega arith)))
