-- ===== src/Keyboard/Tests.antt =====
-- The theorem on the keyboard at a few keys.
use bikeshed.Prelude.{
  ℕ, zero, suc, ◌<◌, ◌≡◌, refl, arith, List, [], ◌∷◌, length-replicate, replicate, some,
}
use bikeshed.TextMode.{Console}
use bikeshed.Keyboard.{Keyboard}
use bikeshed.Keyboard.Ring.{Slots, IsRing}
use bikeshed.Keyboard.Events.{
  Event, scan, read, run, run_queue, key_char, shift_after, appended, run-run_queue,
}

abbrev console : Console
console = record { text = λ i. 0; page_offset = 0; video = λ i. (0, 0); write_x = 0; write_y = 0 }

-- A buffer of the same character, with as many waiting as the second argument says.
abbrev holding : ℕ → ℕ → Keyboard
holding c n = record {
  buffer = λ i. c;
  next_index = n;
  last_index = 0;
  buffer_size = n;
  shiftdown = 0;
  ctrl_mask = 0xff;
  console = console;
}

constant-Slots : (c n i : ℕ) → Slots (λ j. c) i (replicate n c)
unfolding Slots
constant-Slots c zero i = tt
constant-Slots c (suc n) i = (refl, constant-Slots c n _)

holding-IsRing : (c n : ℕ) → n < 256 → IsRing (holding c n) (replicate n c)
holding-IsRing c n h = record {
  size = omega (arith, length-replicate n c);
  fits = omega (arith, length-replicate n c);
  last = omega arith;
  next = ground (arith, length-replicate n c);
  slots = constant-Slots c n 0;
}

-- Shift goes down, `a` goes down and up, shift goes up, `b` goes down.
abbrev typed : List Event
typed = scan 0x2a ∷ scan 0x1e ∷ scan 0x9e ∷ scan 0xaa ∷ read ∷ scan 0x30 ∷ read ∷ read ∷ []

typed_chars : run_queue typed 0 [] ≡ some (b'A' ∷ b'b' ∷ 0 ∷ [])
unfolding run_queue key_char shift_after appended
typed_chars = refl

run-run_queue_example : run typed (holding 0 0) ≡ b'A' ∷ b'b' ∷ 0 ∷ []
run-run_queue_example =
    run-run_queue typed (holding 0 0) [] (b'A' ∷ b'b' ∷ 0 ∷ []) (holding-IsRing 0 0 (omega arith))
      typed_chars
