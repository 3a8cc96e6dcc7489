-- ===== src/Vga/Tests.antt =====
-- The theorem on the screen at a short text.
use bikeshed.Prelude.{ℕ, arith, List, [], ◌∷◌, All}
use bikeshed.Vga.{Screen, text_mode_string}
use bikeshed.Vga.Shown.{IsPrinted, Shows, text_mode_string-Shows}

abbrev blank : Screen
blank = record { x = 10; y = 3; color = 15; video = λ i. (0, 0) }

abbrev hi : List ℕ
hi = b'h' ∷ b'i' ∷ []

hi-IsPrinted : All IsPrinted hi
hi-IsPrinted = ground arith

text_mode_string-Shows_example : Shows hi blank (text_mode_string hi blank)
text_mode_string-Shows_example = text_mode_string-Shows hi blank hi-IsPrinted (omega arith)
