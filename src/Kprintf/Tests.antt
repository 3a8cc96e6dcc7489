-- ===== src/Kprintf/Tests.antt =====
-- The theorems on formatted printing at one format, and numerals at 40.
use bikeshed.Prelude.{◌+◌, ◌≤◌, ◌≡◌, ◌≢◌, refl, true, false, arith, List, [], ◌∷◌, length, All}
use bikeshed.TextMode.{Console}
use bikeshed.Kprintf.{number, kprintf, out_of_fuel, convert_radix, radix_loop}
use bikeshed.Kprintf.Items.{
  Item, literal, percent, text, numeral, Field, hexadecimal, format, arguments, expected, IsItem,
  IsField, IsDigit, starts_with,
}
use bikeshed.Kprintf.Format.{kprintf-expected}
use bikeshed.Kprintf.Ends.{kprintf-ends}
use bikeshed.Kprintf.Numerals.{value_from, convert_radix-value_from}

convert_radix-value_from_example :
    (value_from 16 0 (convert_radix 16 40) ≡ 40) × (length (convert_radix 16 40) ≤ 1 + 1)
convert_radix-value_from_example =
    convert_radix-value_from 16 40 1 (omega arith) (omega arith) (omega arith)

forty : convert_radix 16 40 ≡ b'2' ∷ b'8' ∷ []
unfolding convert_radix radix_loop
forty = refl

abbrev console : Console
console = record { text = λ i. 0; page_offset = 0; video = λ i. (0, 0); write_x = 0; write_y = 0 }

-- %04x
abbrev wide : Field
wide = record { left = false; zeros = true; digits = b'4' ∷ [] }

abbrev items : List Item
items = literal b'0' ∷ percent ∷ numeral wide hexadecimal 40 ∷ text wide (b'!' ∷ []) ∷ []

items-IsItem : All IsItem items
unfolding IsItem IsField IsDigit starts_with
items-IsItem = ground arith

kprintf-expected_example : kprintf (format items) (arguments items) console ≡ expected items console
kprintf-expected_example = kprintf-expected items console items-IsItem

kprintf-ends_example : kprintf (b'%' ∷ b'0' ∷ b'9' ∷ []) (number 1 ∷ []) console ≢ out_of_fuel
kprintf-ends_example = kprintf-ends (b'%' ∷ b'0' ∷ b'9' ∷ []) (number 1 ∷ []) console
