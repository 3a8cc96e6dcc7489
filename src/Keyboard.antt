-- ===== src/Keyboard.antt =====
-- kernel/src/arch/x86_64/keyboard/keyboard.c: the scan codes and the ring of characters. Reading
-- the port and acknowledging the interrupt are left out: `check_scan_code` takes the code read.
pub mod Ring
pub mod Events
mod Tests
use bikeshed.Prelude.{
  ℕ, zero, suc, ◌+◌, ◌-◌, ◌/◌, ◌%◌, ◌^◌, Bool, true, false, ◌==◌, ◌||◌, ltb, leb, if◌then◌else◌,
  List, [], ◌∷◌, get_or,
}
use bikeshed.TextMode.{Console, page_up, page_down}

abbrev pub scan_code_plain : List ℕ
scan_code_plain =
    0 ∷ 27 ∷ b'1' ∷ b'2' ∷ b'3' ∷ b'4' ∷ b'5' ∷ b'6' ∷ b'7' ∷ b'8' ∷ b'9' ∷ b'0' ∷ b'-' ∷ b'=' ∷ 8
    ∷ 9 ∷ b'q' ∷ b'w' ∷ b'e' ∷ b'r' ∷ b't' ∷ b'y' ∷ b'u' ∷ b'i' ∷ b'o' ∷ b'p' ∷ b'[' ∷ b']' ∷ b'\n'
    ∷ 0 ∷ b'a' ∷ b's' ∷ b'd' ∷ b'f' ∷ b'g' ∷ b'h' ∷ b'j' ∷ b'k' ∷ b'l' ∷ b';' ∷ 39 ∷ b'`' ∷ 0 ∷ 92
    ∷ b'z' ∷ b'x' ∷ b'c' ∷ b'v' ∷ b'b' ∷ b'n' ∷ b'm' ∷ b',' ∷ b'.' ∷ b'/' ∷ 0 ∷ b'*' ∷ 0 ∷ b' ' ∷ 0
    ∷ 0 ∷ 0 ∷ 0 ∷ 0 ∷ 0 ∷ 0 ∷ 0 ∷ 0 ∷ 0 ∷ 0 ∷ 0 ∷ 0 ∷ b'7' ∷ b'8' ∷ b'9' ∷ b'-' ∷ b'4' ∷ b'5' ∷ b'6'
    ∷ b'+' ∷ b'1' ∷ b'2' ∷ b'3' ∷ b'0' ∷ b'.' ∷ 0 ∷ 0 ∷ 0 ∷ 0 ∷ 0 ∷ 0 ∷ 0 ∷ 0 ∷ 0 ∷ 0 ∷ 0 ∷ 0 ∷ 0
    ∷ 0 ∷ 0 ∷ 0 ∷ 0 ∷ 0 ∷ 0 ∷ 0 ∷ 0 ∷ 0 ∷ 0 ∷ 0 ∷ 0 ∷ 0 ∷ 0 ∷ 0 ∷ 0 ∷ 0 ∷ 0 ∷ 0 ∷ 0 ∷ 0 ∷ 0 ∷ 0 ∷ 0
    ∷ 0 ∷ 0 ∷ 0 ∷ 0 ∷ 0 ∷ 0 ∷ 0 ∷ []

abbrev pub scan_code_shift : List ℕ
scan_code_shift =
    0 ∷ 27 ∷ b'!' ∷ b'@' ∷ b'#' ∷ b'$' ∷ b'%' ∷ b'^' ∷ b'&' ∷ b'*' ∷ b'(' ∷ b')' ∷ b'_' ∷ b'+' ∷ 8
    ∷ 9 ∷ b'Q' ∷ b'W' ∷ b'E' ∷ b'R' ∷ b'T' ∷ b'Y' ∷ b'U' ∷ b'I' ∷ b'O' ∷ b'P' ∷ b'{' ∷ b'}' ∷ b'\n'
    ∷ 0 ∷ b'A' ∷ b'S' ∷ b'D' ∷ b'F' ∷ b'G' ∷ b'H' ∷ b'J' ∷ b'K' ∷ b'L' ∷ b':' ∷ b'"' ∷ b'~' ∷ 0
    ∷ b'|' ∷ b'Z' ∷ b'X' ∷ b'C' ∷ b'V' ∷ b'B' ∷ b'N' ∷ b'M' ∷ b'<' ∷ b'>' ∷ b'?' ∷ 0 ∷ b'*' ∷ 0
    ∷ b' ' ∷ 0 ∷ 0 ∷ 0 ∷ 0 ∷ 0 ∷ 0 ∷ 0 ∷ 0 ∷ 0 ∷ 0 ∷ 0 ∷ 0 ∷ 0 ∷ b'7' ∷ b'8' ∷ b'9' ∷ b'-' ∷ b'4'
    ∷ b'5' ∷ b'6' ∷ b'+' ∷ b'1' ∷ b'2' ∷ b'3' ∷ b'0' ∷ b'.' ∷ 0 ∷ 0 ∷ 0 ∷ 0 ∷ 0 ∷ 0 ∷ 0 ∷ 0 ∷ 0 ∷ 0
    ∷ 0 ∷ 0 ∷ 0 ∷ 0 ∷ 0 ∷ 0 ∷ 0 ∷ 0 ∷ 0 ∷ 0 ∷ 0 ∷ 0 ∷ 0 ∷ 0 ∷ 0 ∷ 0 ∷ 0 ∷ 0 ∷ 0 ∷ 0 ∷ 0 ∷ 0 ∷ 0 ∷ 0
    ∷ 0 ∷ 0 ∷ 0 ∷ 0 ∷ 0 ∷ 0 ∷ 0 ∷ 0 ∷ 0 ∷ 0 ∷ []

abbrev pub scan_code_table : ℕ → List ℕ
scan_code_table shiftdown = if shiftdown == 0 then scan_code_plain else scan_code_shift

abbrev pub buffer_max : ℕ
buffer_max = 256

pub record Keyboard : Type 0 where
  pub buffer : ℕ → ℕ
  pub next_index : ℕ
  pub last_index : ℕ
  pub buffer_size : ℕ
  pub shiftdown : ℕ
  pub ctrl_mask : ℕ
  pub console : Console

unfoldable pub keyboard_char_available : Keyboard → Bool
keyboard_char_available k = ltb 0 k.buffer_size

unfoldable pub keyboard_get_char : Keyboard → ℕ × Keyboard
keyboard_get_char k =
    if keyboard_char_available k
    then (
      k.buffer k.last_index,
      record k {
        buffer_size = k.buffer_size - 1;
        last_index = (if leb buffer_max (k.last_index + 1) then 0 else k.last_index + 1);
      },
    )
    else (0, k)

abbrev pub store_char : (ℕ → ℕ) → ℕ → ℕ → ℕ → ℕ
store_char f i c j = if j == i then c else f j

-- The last index moves only if the next index has just wrapped onto it.
unfoldable pub put_char : ℕ → Keyboard → Keyboard
put_char c k =
    let wraps = leb buffer_max (k.next_index + 1) in
    record k {
      buffer = store_char k.buffer k.next_index c;
      buffer_size = (k.buffer_size + 1) % 2 ^ 32;
      next_index = (if wraps then 0 else k.next_index + 1);
      last_index =
          (if wraps
            then (if 0 == k.last_index then (k.last_index + 1) % buffer_max else k.last_index)
            else k.last_index);
    }

unfoldable pub turn_page : ℕ → Keyboard → Keyboard
turn_page c k =
    if c == b'1'
    then record k { console = page_up k.console }
    else if c == b'2'
    then record k { console = page_down k.console }
    else k

unfoldable pub key_down : ℕ → Keyboard → Keyboard
key_down code k =
    let c = get_or (scan_code_table k.shiftdown) code 0 in
    if c == 0 then k else turn_page c (put_char c k)

-- The `default` case: only codes without the top bit are keys that go down.
unfoldable pub key_code : ℕ → Keyboard → Keyboard
key_code code k = if code / 128 % 2 == 0 then key_down code k else k

unfoldable pub check_scan_code : ℕ → Keyboard → Keyboard
check_scan_code code k =
    if code == 0x2a || code == 0x36
    then record k { shiftdown = 1 }
    else if code == 0xaa || code == 0xb6
    then record k { shiftdown = 0 }
    else if code == 0x1d
    then record k { ctrl_mask = 0x1f }
    else if code == 0x9d
    then key_code code (record k { ctrl_mask = 0xff })
    else key_code code k
