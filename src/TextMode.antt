-- ===== src/TextMode.antt =====
-- kernel/src/arch/x86_64/textmode.c: the kernel's console, a text of 2500 lines of which the
-- screen shows one page of 25. A cell of the video memory is a character and a colour.
pub mod Bounds
mod Tests
use bikeshed.Prelude.{
  ℕ, zero, suc, ◌+◌, ◌-◌, ◌*◌, ◌/◌, ◌%◌, Bool, true, false, ◌==◌, ◌||◌, leb, ltb, if◌then◌else◌,
}

abbrev pub max_x : ℕ
max_x = 80

abbrev pub max_y : ℕ
max_y = 25

abbrev pub num_lines : ℕ
num_lines = 2500

abbrev pub Cell : Type 0
Cell = ℕ × ℕ

pub record Console : Type 0 where
  pub text : ℕ → ℕ
  pub page_offset : ℕ
  pub video : ℕ → Cell
  pub write_x : ℕ
  pub write_y : ℕ

-- `init_text_mode` and `text_mode_reset`.
unfoldable pub text_mode_reset : Console → Console
text_mode_reset s = record s { write_x = 0; write_y = 0 }

abbrev pub set_cell : (ℕ → Cell) → ℕ → Cell → ℕ → Cell
set_cell v i c j = if j == i then c else v j

-- The loop over the cells, from the last on.
unfoldable pub clear_cells : ℕ → (ℕ → Cell) → ℕ → Cell
clear_cells zero v = v
clear_cells (suc n) v = clear_cells n (set_cell v n (0, 0))

unfoldable pub clear_screen : Console → Console
clear_screen s = record s { video = clear_cells 2000 s.video }

-- The loop over the columns of a line of the screen, and the loop over the lines: `n` and `m` are
-- what is left.
unfoldable pub display_line : ℕ → (text : ℕ → ℕ) → (text_y disp_y : ℕ) → (ℕ → Cell) → ℕ → Cell
display_line zero text text_y disp_y v = v
display_line (suc n) text text_y disp_y v =
    let disp_x = max_x - suc n in
    display_line n text text_y disp_y
      (set_cell v (disp_y * max_x + disp_x) (text (text_y * max_x + disp_x), 0x9))

unfoldable pub display_lines : ℕ → (text : ℕ → ℕ) → (text_y disp_y : ℕ) → (ℕ → Cell) → ℕ → Cell
display_lines zero text text_y disp_y v = v
display_lines (suc m) text text_y disp_y v =
    display_lines m text (suc text_y) (suc disp_y) (display_line max_x text text_y disp_y v)

unfoldable pub display_page : Console → Console
display_page s =
    let s' = clear_screen s in
    record s' { video = display_lines max_y s.text (s.page_offset * max_y) 0 s'.video }

unfoldable pub page_up : Console → Console
page_up s = display_page (record s { page_offset = s.page_offset - 1 })

unfoldable pub page_down : Console → Console
page_down s = display_page (record s {
  page_offset = if ltb s.page_offset (s.write_y / max_y) then s.page_offset + 1 else s.page_offset;
})

-- Scrolls to the page that is written.
unfoldable pub scroll_to_bottom : Console → Console
scroll_to_bottom s =
    let current_page = s.write_y / max_y in
    if current_page == s.page_offset
    then s
    else clear_screen (record s { page_offset = current_page })

-- Writes a character at the cursor, to the text and to the screen.
unfoldable pub put_cell : ℕ → Console → Console
put_cell c s =
    let at = s.write_y * max_x + s.write_x in
    record s {
      text = λ i. if i == at then c else s.text i;
      video = set_cell s.video (s.write_y % max_y * max_x + s.write_x) (c, 0x9);
    }

unfoldable pub next_line : Console → Console
next_line s = record s {
  write_x = 0;
  write_y = if leb num_lines (s.write_y + 1) then 0 else s.write_y + 1;
}

-- The cursor one place back.
unfoldable pub step_back : Console → Console
step_back s =
    if s.write_x == 0
    then record s { write_x = max_x - 1; write_y = s.write_y - 1 }
    else record s { write_x = s.write_x - 1 }

unfoldable pub step_on : Console → Console
step_on s = if leb max_x (s.write_x + 1) then next_line s else record s { write_x = s.write_x + 1 }

unfoldable pub text_mode_char : ℕ → Console → Console
text_mode_char c s =
    let s1 = scroll_to_bottom s in
    if c == b'\r' || c == b'\n'
    then next_line s1
    else if c == 8
    then put_cell b' ' (step_back s1)
    else step_on (put_cell c s1)
