-- ===== src/TextMode/Tests.antt =====
-- The theorems on the console at a few characters and page turns.
use bikeshed.Prelude.{arith, List, [], ◌∷◌}
use bikeshed.TextMode.{Console}
use bikeshed.TextMode.Bounds.{IsValid, InBounds, Action, print, up, down, act_all, act_all-IsValid}

abbrev last_line : Console
last_line = record {
  text = λ i. 0;
  page_offset = 99;
  video = λ i. (0, 0);
  write_x = 79;
  write_y = 2499;
}

abbrev actions : List Action
actions = print b'a' ∷ up ∷ print b'\n' ∷ down ∷ print 8 ∷ []

last_line-IsValid : IsValid last_line
last_line-IsValid = record { column = omega arith; line = omega arith; page = omega arith }

act_all-IsValid_example :
    IsValid (act_all actions last_line) × InBounds last_line (act_all actions last_line)
act_all-IsValid_example = act_all-IsValid actions last_line last_line-IsValid
