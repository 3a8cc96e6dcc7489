-- ===== src/Kprintf.antt =====
-- kernel/src/arch/x86_64/kprintf.c: numerals and formatted printing on the console. The copy of each
-- character to the serial port, in builds for QEMU, is left out. A number's buffer is the list of
-- the characters from its index on, which is all that is read of it; a format is the list of its
-- characters before the zero.
pub mod Numerals
pub mod Items
pub mod Fields
pub mod Format
pub mod Ends
mod Tests
use bikeshed.Prelude.{
  ℕ, zero, suc, ◌+◌, ◌-◌, ◌*◌, ◌/◌, ◌%◌, ◌^◌, Bool, true, false, not, ◌==◌, ◌&&◌, ◌||◌, ltb, leb,
  if◌then◌else◌, List, [], ◌∷◌, Option, none, some, length, take, get_or,
}
use bikeshed.Prelude.Int.{ℤ, pos, negsuc}
use bikeshed.TextMode.{Console, text_mode_char}

abbrev pub buffer_len : ℕ
buffer_len = 21

abbrev pub hexdigits : List ℕ
hexdigits =
    b'0' ∷ b'1' ∷ b'2' ∷ b'3' ∷ b'4' ∷ b'5' ∷ b'6' ∷ b'7' ∷ b'8' ∷ b'9' ∷ b'A' ∷ b'B' ∷ b'C' ∷ b'D'
    ∷ b'E' ∷ b'F' ∷ []

-- The loop, with as many places left in the buffer as the first argument says.
unfoldable pub radix_loop : ℕ → ℕ → ℕ → List ℕ → List ℕ
radix_loop zero radix value buf = buf
radix_loop (suc index) radix value buf =
    let buf' = get_or hexdigits (value % radix) 0 ∷ buf in
    let rest = radix_loop index radix (value / radix) buf' in
    if value / radix == 0 then buf' else rest

unfoldable pub convert_radix : ℕ → ℕ → List ℕ
convert_radix radix value = radix_loop buffer_len radix value []

unfoldable pub decimal_loop : ℕ → ℕ → List ℕ → List ℕ
decimal_loop zero value buf = buf
decimal_loop (suc index) value buf =
    let buf' = (value % 10 + b'0') ∷ buf in
    let rest = decimal_loop index (value / 10) buf' in if value / 10 == 0 then buf' else rest

-- `none` is the panic. The negation of -2^63 overflows; its digits are as many, and it panics too.
unfoldable pub convert_decimal : ℤ → Option (List ℕ)
convert_decimal (pos value) = some (decimal_loop buffer_len value [])
convert_decimal (negsuc n) =
    let buf = decimal_loop buffer_len (n + 1) [] in
    if ltb (length buf) buffer_len then none else some (b'-' ∷ buf)

unfoldable pub write_char : ℕ → Console → Console
write_char c s = text_mode_char c s

unfoldable pub write_all : List ℕ → Console → Console
write_all [] s = s
write_all (c ∷ str) s = write_all str (write_char c s)

unfoldable pub pad : ℕ → ℕ → Console → Console
pad zero padchar s = s
pad (suc extra) padchar s = pad extra padchar (write_char padchar s)

pub record Flags : Type 0 where
  pub leftadjust : Bool
  pub padchar : ℕ
  pub width : ℕ

unfoldable pub padstr : List ℕ → ℕ → Flags → Console → Console
padstr str len f s =
    let extra = f.width - len in
    let s1 = if ltb 0 extra && not f.leftadjust then pad extra f.padchar s else s in
    let s2 = write_all (take len str) s1 in
    if ltb 0 extra && f.leftadjust then pad extra f.padchar s2 else s2

unfoldable pub string_length_loop : ℕ → List ℕ → ℕ
string_length_loop len [] = len
string_length_loop len (c ∷ str) = string_length_loop (len + 1) str

unfoldable pub string_length : List ℕ → ℕ
string_length str = string_length_loop 0 str

-- The arguments after the format: 64-bit numbers and strings.
pub data Argument : Type 0 where
  number : ℕ → Argument
  string : List ℕ → Argument

-- How a call ends; `no_argument` is the undefined behaviour of an argument that is missing or of
-- another type than its conversion reads.
pub data Printed : Type 0 where
  returned panicked : Console → Printed
  no_argument out_of_fuel : Printed

-- What the body of the outer loop ends with.
pub data Round : Type 0 where
  again : List ℕ → List Argument → Console → Round
  stop : Printed → Round

-- The number that 64 bits stand for as a signed integer.
unfoldable pub as_signed : ℕ → ℤ
as_signed n = if ltb n (2 ^ 63) then pos n else negsuc (2 ^ 64 - 1 - n)

unfoldable pub number_round : Flags → List ℕ → List Argument → Console → Option (List ℕ) → Round
number_round f fmt args s none = stop (panicked s)
number_round f fmt args s (some str) = again fmt args (padstr str (length str) f s)

-- A conversion of a number: the number's characters, or a panic.
unfoldable pub print_number :
    (ℕ → Option (List ℕ)) → Flags → List ℕ → List Argument → Console → Round
print_number convert f fmt (number n ∷ args) s = number_round f fmt args s (convert n)
print_number convert f fmt (string str ∷ args) s = stop no_argument
print_number convert f fmt [] s = stop no_argument

unfoldable pub print_string : Flags → List ℕ → List Argument → Console → Round
print_string f fmt (string str ∷ args) s = again fmt args (padstr str (string_length str) f s)
print_string f fmt (number n ∷ args) s = stop no_argument
print_string f fmt [] s = stop no_argument

-- The `switch`, on the character after the width.
unfoldable pub convert : ℕ → Flags → List ℕ → List Argument → Console → Round
convert ch f fmt args s =
    if ch == b'c' || ch == b'C'
    then print_number (λ n. some (n % 256 ∷ [])) f fmt args s
    else if ch == b'd' || ch == b'D'
    then print_number (λ n. convert_decimal (as_signed n)) f fmt args s
    else if ch == b'u' || ch == b'U'
    then print_number (λ n. some (convert_radix 10 n)) f fmt args s
    else if ch == b's' || ch == b'S'
    then print_string f fmt args s
    else if ch == b'x' || ch == b'X'
    then print_number (λ n. some (convert_radix 16 n)) f fmt args s
    else if ch == b'b' || ch == b'B'
    then print_number (λ n. some (convert_radix 2 n)) f fmt args s
    else if ch == b'o' || ch == b'O'
    then print_number (λ n. some (convert_radix 8 n)) f fmt args s
    else if ch == b'%'
    then again fmt args (write_char b'%' s)
    else stop (panicked (write_char b'B' s))

unfoldable pub skip_char : ℕ → List ℕ → Bool × List ℕ
skip_char c [] = (false, [])
skip_char c (ch ∷ fmt) = if ch == c then (true, fmt) else (false, ch ∷ fmt)

-- The width is counted in an int64_t, which a width of 2 ^ 63 would overflow; that is undefined in C,
-- and the model counts on.
unfoldable pub read_width : ℕ → List ℕ → ℕ × List ℕ
read_width width [] = (width, [])
read_width width (ch ∷ fmt) =
    let rest = read_width (width * 10 + (ch - b'0')) fmt in
    if leb b'0' ch && leb ch b'9' then rest else (width, ch ∷ fmt)

unfoldable pub plain : List ℕ → Console → List ℕ × Console
plain [] s = ([], s)
plain (ch ∷ fmt) s =
    let rest = plain fmt (write_char ch s) in if ch == b'%' then (ch ∷ fmt, s) else rest

-- The flags and the width, and the characters after them.
unfoldable pub after_width : Bool → Bool → ℕ × List ℕ → Flags × List ℕ
after_width left zeros (width, fmt) =
    (record { leftadjust = left; padchar = (if zeros then b'0' else b' '); width = width }, fmt)

unfoldable pub after_zero : Bool → Bool × List ℕ → Flags × List ℕ
after_zero left (zeros, fmt) = after_width left zeros (read_width 0 fmt)

unfoldable pub after_minus : Bool × List ℕ → Flags × List ℕ
after_minus (left, fmt) = after_zero left (skip_char b'0' fmt)

unfoldable pub read_flags : List ℕ → Flags × List ℕ
read_flags fmt = after_minus (skip_char b'-' fmt)

-- After the percent sign.
unfoldable pub directive : Flags × List ℕ → List Argument → Console → Round
directive (f, []) args s = stop (returned s)
directive (f, ch ∷ fmt) args s = convert ch f fmt args s

unfoldable pub after_plain : List ℕ × Console → List Argument → Round
after_plain ([], s) args = stop (returned s)
after_plain (percent ∷ fmt, s) args = directive (read_flags fmt) args s

unfoldable pub kprintf_loop : ℕ → List ℕ → List Argument → Console → Printed
kprintf_loop zero fmt args s = out_of_fuel
kprintf_loop (suc fuel) fmt args s = elim (after_plain (plain fmt s) args) [
  | again fmt' args' s' ↦ kprintf_loop fuel fmt' args' s'
  | stop end ↦ end
]

-- Every round but the last takes a character of the format.
unfoldable pub kprintf : List ℕ → List Argument → Console → Printed
kprintf fmt args s = kprintf_loop (length fmt + 1) fmt args s
