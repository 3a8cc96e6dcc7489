-- ===== src/Shell.antt =====
-- programs/src/init/shell.c: reading a line and telling which command it is. The keys are those
-- that `read_key` returns; `tetris` itself is modelled apart, and the banner's animation is left
-- out.
pub mod Edit
mod Tests
use bikeshed.Prelude.{
  ℕ, zero, suc, ◌+◌, ◌-◌, Bool, true, false, ◌==◌, ◌&&◌, ltb, if◌then◌else◌, List, [], ◌∷◌, Option,
  none, some,
}
use bikeshed.CString.{streq}
use bikeshed.Vga.{Screen, clear_screen, text_mode_char, text_set_pos}

abbrev pub command_size : ℕ
command_size = 256

pub record Shell : Type 0 where
  pub command : ℕ → ℕ
  pub command_length : ℕ
  pub screen : Screen

unfoldable pub write_char : ℕ → Screen → Screen
write_char c s = text_mode_char c (if s.y == 0 && s.x == 0 then clear_screen s else s)

unfoldable pub write_string : List ℕ → Screen → Screen
write_string [] s = s
write_string (c ∷ str) s = write_string str (write_char c s)

abbrev pub store_char : (ℕ → ℕ) → ℕ → ℕ → ℕ → ℕ
store_char f i c j = if j == i then c else f j

abbrev pub echo : ℕ → Shell → Shell
echo key s = record s { screen = write_char key s.screen }

-- What a key other than the line break that ends the line does.
unfoldable pub take_key : ℕ → Shell → Shell
take_key key s =
    if key == b'\n'
    then s
    else if key == 8
    then (if ltb 0 s.command_length
        then echo key (record s { command_length = s.command_length - 1 })
        else s)
    else echo key (record s {
      command = store_char s.command s.command_length key;
      command_length = s.command_length + 1;
    })

-- The loop, on the keys to come; it gives the keys that are left, or `none` if it waits for more.
unfoldable pub read_loop : List ℕ → Shell → Option (List ℕ × Shell)
read_loop [] s = if ltb s.command_length (command_size - 1) then none else some ([], s)
read_loop (key ∷ keys) s =
    let rest = read_loop keys (take_key key s) in
    if ltb s.command_length (command_size - 1)
    then (if key == b'\n' && ltb 0 s.command_length then some (keys, s) else rest)
    else some (key ∷ keys, s)

abbrev pub end_command : List ℕ × Shell → List ℕ × Shell
end_command (keys, s) = (
  keys,
  record s {
    command = store_char s.command s.command_length 0;
    screen = write_string (b'\n' ∷ []) s.screen;
  },
)

unfoldable pub read_command : List ℕ → Shell → Option (List ℕ × Shell)
read_command keys s =
    let started = record s { screen = write_string (b'>' ∷ []) s.screen; command_length = 0 } in
    elim (read_loop keys started) [ none ↦ none | some out ↦ some (end_command out) ]

pub data Command : Type 0 where
  help run_tetris unrecognized : Command

-- Which branch of `check_command` a line takes.
unfoldable pub which_command : List ℕ → Command
which_command line =
    if streq (b'h' ∷ b'e' ∷ b'l' ∷ b'p' ∷ []) line
    then help
    else if streq (b't' ∷ b'e' ∷ b't' ∷ b'r' ∷ b'i' ∷ b's' ∷ []) line
    then run_tetris
    else unrecognized
