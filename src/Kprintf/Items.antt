-- ===== src/Kprintf/Items.antt =====
-- kernel/src/arch/x86_64/kprintf.c: what a format is made of, and what it is meant to print.
use bikeshed.Prelude.{
  ℕ, ◌+◌, ◌-◌, ◌*◌, ◌%◌, ◌≤◌, ◌≡◌, ◌≢◌, Bool, true, false, not, ◌||◌, ◌==◌, if◌then◌else◌, List, [],
  ◌∷◌, ◌++◌, length, replicate, All, Option, none, some,
}
use bikeshed.TextMode.{Console}
use bikeshed.Kprintf.{
  Argument, number, string, Printed, returned, panicked, convert_radix, convert_decimal, as_signed,
  write_char, write_all,
}

pub data Conversion : Type 0 where
  decimal unsigned hexadecimal binary octal character : Conversion

-- The part of a format: a character, `%%`, a string or a number with its flags, the digits of its
-- width and its argument.
pub record Field : Type 0 where
  pub left : Bool
  pub zeros : Bool
  pub digits : List ℕ

pub data Item : Type 0 where
  literal : ℕ → Item
  percent : Item
  text : Field → List ℕ → Item
  numeral : Field → Conversion → ℕ → Item

unfoldable pub conversion_char : Conversion → ℕ
conversion_char decimal = b'd'
conversion_char unsigned = b'u'
conversion_char hexadecimal = b'x'
conversion_char binary = b'b'
conversion_char octal = b'o'
conversion_char character = b'c'

unfoldable pub flags_text : Field → List ℕ → List ℕ
flags_text f rest =
    (if f.left then b'-' ∷ [] else [])
    ++ ((if f.zeros then b'0' ∷ [] else []) ++ (f.digits ++ rest))

unfoldable pub format : List Item → List ℕ
format [] = []
format (literal c ∷ items) = c ∷ format items
format (percent ∷ items) = b'%' ∷ b'%' ∷ format items
format (text f str ∷ items) = b'%' ∷ flags_text f (b's' ∷ format items)
format (numeral f c n ∷ items) = b'%' ∷ flags_text f (conversion_char c ∷ format items)

unfoldable pub arguments : List Item → List Argument
arguments [] = []
arguments (literal c ∷ items) = arguments items
arguments (percent ∷ items) = arguments items
arguments (text f str ∷ items) = string str ∷ arguments items
arguments (numeral f c n ∷ items) = number n ∷ arguments items

unfoldable pub IsDigit : ℕ → Type 0
IsDigit c = (b'0' ≤ c) × (c ≤ b'9')

unfoldable pub starts_with : ℕ → List ℕ → Bool
starts_with c [] = false
starts_with c (d ∷ ds) = d == c

unfoldable pub IsField : Field → Type 0
IsField f = All IsDigit f.digits × ((f.zeros || not (starts_with b'0' f.digits)) ≡ true)

unfoldable pub IsItem : Item → Type 0
IsItem (literal c) = c ≢ b'%'
IsItem percent = Unit
IsItem (text f str) = IsField f
IsItem (numeral f c n) = IsField f

unfoldable pub width_of : ℕ → List ℕ → ℕ
width_of n [] = n
width_of n (c ∷ cs) = width_of (n * 10 + (c - b'0')) cs

unfoldable pub padded : Field → List ℕ → List ℕ
padded f str =
    let blanks = replicate (width_of 0 f.digits - length str) (if f.zeros then b'0' else b' ') in
    if f.left then str ++ blanks else blanks ++ str

-- A negative decimal number has no text.
unfoldable pub number_text : Conversion → ℕ → Option (List ℕ)
number_text decimal n = convert_decimal (as_signed n)
number_text unsigned n = some (convert_radix 10 n)
number_text hexadecimal n = some (convert_radix 16 n)
number_text binary n = some (convert_radix 2 n)
number_text octal n = some (convert_radix 8 n)
number_text character n = some (n % 256 ∷ [])

abbrev pub or_panic : Console → Option (List ℕ) → (List ℕ → Printed) → Printed
or_panic s none rest = panicked s
or_panic s (some str) rest = rest str

unfoldable pub expected : List Item → Console → Printed
expected [] s = returned s
expected (literal c ∷ items) s = expected items (write_char c s)
expected (percent ∷ items) s = expected items (write_char b'%' s)
expected (text f str ∷ items) s = expected items (write_all (padded f str) s)
expected (numeral f c n ∷ items) s =
    or_panic s (number_text c n) (λ str. expected items (write_all (padded f str) s))
