-- ===== src/Vga.antt =====
-- programs/src/init/vga.c: the screen of the user programs, 25 lines of 80 cells.
pub mod Shown
mod Tests
use bikeshed.Prelude.{
  ℕ, zero, suc, ◌+◌, ◌-◌, ◌*◌, ◌%◌, Bool, ◌==◌, ◌||◌, leb, ltb, if◌then◌else◌, List, [], ◌∷◌,
}

abbrev pub max_x : ℕ
max_x = 80

abbrev pub max_y : ℕ
max_y = 25

-- A cell is a character and a colour, here the number that `color_t` packs.
abbrev pub Cell : Type 0
Cell = ℕ × ℕ

-- `text_mode_info` and the video memory.
pub record Screen : Type 0 where
  pub x : ℕ
  pub y : ℕ
  pub color : ℕ
  pub video : ℕ → Cell

abbrev pub set_cell : (ℕ → Cell) → ℕ → Cell → ℕ → Cell
set_cell v i c j = if j == i then c else v j

unfoldable pub clear_cells : ℕ → (ℕ → Cell) → ℕ → Cell
clear_cells zero v = v
clear_cells (suc n) v = clear_cells n (set_cell v n (0, 0))

unfoldable pub clear_screen : Screen → Screen
clear_screen s = record s { video = clear_cells 2000 s.video }

-- The arguments are `uint8_t`.
unfoldable pub text_set_pos : ℕ → ℕ → Screen → Screen
text_set_pos x y s = record s { x = x % 256; y = y % 256 }

unfoldable pub next_line : Screen → Screen
next_line s = record s { x = 0; y = if leb max_y (s.y + 1) then 0 else s.y + 1 }

unfoldable pub put_cell : ℕ → Screen → Screen
put_cell c s = record s { video = set_cell s.video (s.y * max_x + s.x) (c, s.color) }

unfoldable pub step_back : Screen → Screen
step_back s = if s.x == 0 then record s { x = max_x - 1; y = s.y - 1 } else record s { x = s.x - 1 }

unfoldable pub step_on : Screen → Screen
step_on s = if leb max_x (s.x + 1) then next_line s else record s { x = s.x + 1 }

unfoldable pub text_mode_char : ℕ → Screen → Screen
text_mode_char c s =
    if c == b'\r' || c == b'\n'
    then next_line s
    else if c == 8
    then put_cell b' ' (step_back s)
    else step_on (put_cell c s)

-- The characters of a C string, without the terminating zero.
unfoldable pub text_mode_string : List ℕ → Screen → Screen
text_mode_string [] s = s
text_mode_string (c ∷ str) s = text_mode_string str (text_mode_char c s)
