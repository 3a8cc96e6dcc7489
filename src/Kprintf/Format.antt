-- ===== src/Kprintf/Format.antt =====
-- kernel/src/arch/x86_64/kprintf.c: whole formats against what they are meant to print.
use bikeshed.Prelude.{
  ℕ, zero, suc, ◌≤◌, ◌<◌, ◌≡◌, ◌≢◌, refl, sym, ap, ◌∙◌, false, ◌&&◌, ◌==◌, leb, arith,
  if◌then◌else◌, List, [], ◌∷◌, ◌++◌, length, length-append, All, Option, none, some,
}
use bikeshed.TextMode.{Console}
use bikeshed.Kprintf.{
  Argument, number, string, Printed, panicked, Round, number_round, again, stop, write_char,
  write_all, string_length, string_length_loop, print_number, print_string, convert, skip_char,
  read_width, plain, directive, after_plain, read_flags, after_minus, after_zero, after_width,
  kprintf_loop, kprintf,
}
use bikeshed.Kprintf.Items.{
  Conversion, Field, Item, conversion_char, flags_text, format, arguments, IsField, IsItem, padded,
  number_text, or_panic, expected, decimal, unsigned, hexadecimal, binary, octal, character,
  literal, percent, text, numeral,
}
use bikeshed.Kprintf.Fields.{
  string_length_loop-length, padstr-padded, read_flags-flags_text, field_flags,
}

-- What a round with a number gives.
padded_round : Field → List ℕ → List Argument → Console → Option (List ℕ) → Round
padded_round f rest args s none = stop (panicked s)
padded_round f rest args s (some str) = again rest args (write_all (padded f str) s)

number_round-padded_round :
    (f : Field) (rest : List ℕ) (args : List Argument) (s : Console) (o : Option (List ℕ))
    → number_round (field_flags f) rest args s o ≡ padded_round f rest args s o
unfolding number_round padded_round
number_round-padded_round f rest args s none = refl
number_round-padded_round f rest args s (some str) = ap (again rest args) (padstr-padded f str s)

-- One conversion of a number.
convert-numeral :
    (f : Field) (c : Conversion) (n : ℕ) (rest : List ℕ) (args : List Argument) (s : Console)
    → convert (conversion_char c) (field_flags f) rest (number n ∷ args) s
      ≡ padded_round f rest args s (number_text c n)
unfolding convert conversion_char print_number number_text
convert-numeral f decimal n rest args s = number_round-padded_round f rest args s _
convert-numeral f unsigned n rest args s = number_round-padded_round f rest args s _
convert-numeral f hexadecimal n rest args s = number_round-padded_round f rest args s _
convert-numeral f binary n rest args s = number_round-padded_round f rest args s _
convert-numeral f octal n rest args s = number_round-padded_round f rest args s _
convert-numeral f character n rest args s = number_round-padded_round f rest args s _

convert-text :
    (f : Field) (str rest : List ℕ) (args : List Argument) (s : Console)
    → convert b's' (field_flags f) rest (string str ∷ args) s
      ≡ again rest args (write_all (padded f str) s)
unfolding convert print_string string_length
convert-text f str rest args s =
    let same : string_length_loop 0 str ≡ length str =
      omega (arith, string_length_loop-length 0 str) in
    rw same (ap (again rest args) (padstr-padded f str s))

-- How a call goes on after a round.
unfoldable pub continued : ℕ → Round → Printed
continued fuel (again fmt args s) = kprintf_loop fuel fmt args s
continued fuel (stop end) = end

pub loop_round :
    (fuel : ℕ) (fmt : List ℕ) (args : List Argument) (s : Console)
    → kprintf_loop (suc fuel) fmt args s ≡ continued fuel (after_plain (plain fmt s) args)
unfolding kprintf_loop continued
loop_round fuel fmt args s = go (after_plain (plain fmt s) args)
  where
    go :
        (r : Round)
        → (elim r [ again fmt' args' s' ↦ kprintf_loop fuel fmt' args' s' | stop end ↦ end ])
          ≡ continued fuel r
    go (again fmt' args' s') = refl
    go (stop end) = refl

plain-percent : (rest : List ℕ) (s : Console) → plain (b'%' ∷ rest) s ≡ (b'%' ∷ rest, s)
unfolding plain
plain-percent rest s = refl

-- A field takes one round.
kprintf_loop-field :
    (fuel : ℕ) (f : Field) (ch : ℕ) (rest : List ℕ) (args : List Argument) (s : Console)
    → IsField f
    → (leb b'0' ch && leb ch b'9') ≡ false
    → (ch == b'-') ≡ false
    → kprintf_loop (suc fuel) (b'%' ∷ flags_text f (ch ∷ rest)) args s
      ≡ continued fuel (convert ch (field_flags f) rest args s)
unfolding after_plain directive
kprintf_loop-field fuel f ch rest args s v h h' =
    loop_round fuel _ args s
    ∙ ap (λ p. continued fuel (after_plain p args)) (plain-percent (flags_text f (ch ∷ rest)) s)
    ∙ ap (λ p. continued fuel (directive p args s)) (read_flags-flags_text f ch rest v h h')

plain-literal :
    (c : ℕ) (rest : List ℕ) (s : Console)
    → c ≢ b'%'
    → plain (c ∷ rest) s ≡ plain rest (write_char c s)
unfolding plain
plain-literal c rest s h = rw (other) refl
  where
    other : (c == b'%') ≡ false
    other = ground arith

kprintf_loop-literal :
    (fuel c : ℕ) (rest : List ℕ) (args : List Argument) (s : Console)
    → c ≢ b'%'
    → kprintf_loop (suc fuel) (c ∷ rest) args s ≡ kprintf_loop (suc fuel) rest args (write_char c s)
kprintf_loop-literal fuel c rest args s h =
    loop_round fuel (c ∷ rest) args s
    ∙ ap (λ p. continued fuel (after_plain p args)) (plain-literal c rest s h)
    ∙ sym (loop_round fuel rest args (write_char c s))

kprintf_loop-percent :
    (fuel : ℕ) (rest : List ℕ) (args : List Argument) (s : Console)
    → kprintf_loop (suc fuel) (b'%' ∷ b'%' ∷ rest) args s
      ≡ kprintf_loop fuel rest args (write_char b'%' s)
unfolding after_plain directive read_flags after_minus after_zero after_width skip_char read_width
    continued convert
kprintf_loop-percent fuel rest args s =
    loop_round fuel _ args s
    ∙ ap (λ p. continued fuel (after_plain p args)) (plain-percent (b'%' ∷ rest) s)

conversion_char-other :
    (c : Conversion)
    → ((leb b'0' (conversion_char c) && leb (conversion_char c) b'9') ≡ false)
      × ((conversion_char c == b'-') ≡ false)
unfolding conversion_char
conversion_char-other decimal = (refl, refl)
conversion_char-other unsigned = (refl, refl)
conversion_char-other hexadecimal = (refl, refl)
conversion_char-other binary = (refl, refl)
conversion_char-other octal = (refl, refl)
conversion_char-other character = (refl, refl)

length-flags_text : (f : Field) (rest : List ℕ) → length rest ≤ length (flags_text f rest)
unfolding flags_text
length-flags_text f rest =
    let zeros : List ℕ = if f.zeros then b'0' ∷ [] else [] in
    length-tail (if f.left then b'-' ∷ [] else []) (zeros ++ (f.digits ++ rest))
      (length-tail zeros (f.digits ++ rest) (length-tail f.digits rest (omega arith)))
  where
    length-tail : (xs ys : List ℕ) → length rest ≤ length ys → length rest ≤ length (xs ++ ys)
    length-tail xs ys h = omega (arith, length-append xs ys)

continued-or_panic :
    (fuel : ℕ) (f : Field) (rest : List ℕ) (args : List Argument) (s : Console)
    (o : Option (List ℕ)) (k : Console → Printed)
    → ((s' : Console) → kprintf_loop fuel rest args s' ≡ k s')
    → continued fuel (padded_round f rest args s o)
      ≡ or_panic s o (λ str. k (write_all (padded f str) s))
unfolding continued padded_round
continued-or_panic fuel f rest args s none k e = refl
continued-or_panic fuel f rest args s (some str) k e = e (write_all (padded f str) s)

kprintf_loop-expected :
    (items : List Item) (fuel : ℕ) (s : Console)
    → All IsItem items
    → length (format items) < fuel
    → kprintf_loop fuel (format items) (arguments items) s ≡ expected items s
unfolding format arguments expected IsItem continued plain after_plain
kprintf_loop-expected items zero s v h = absurd (omega arith)
kprintf_loop-expected [] (suc fuel) s v h = loop_round fuel [] [] s
kprintf_loop-expected (literal c ∷ items) (suc fuel) s v h =
    kprintf_loop-literal fuel c (format items) (arguments items) s v.0
    ∙ kprintf_loop-expected items (suc fuel) (write_char c s) v.1 (omega arith)
kprintf_loop-expected (percent ∷ items) (suc fuel) s v h =
    kprintf_loop-percent fuel (format items) (arguments items) s
    ∙ kprintf_loop-expected items fuel (write_char b'%' s) v.1 (omega arith)
kprintf_loop-expected (text f str ∷ items) (suc fuel) s v h =
    let len = length-flags_text f (b's' ∷ format items) in
    kprintf_loop-field fuel f b's' (format items) _ s v.0 refl refl
    ∙ ap (continued fuel) (convert-text f str (format items) (arguments items) s)
    ∙ kprintf_loop-expected items fuel (write_all (padded f str) s) v.1 (omega (arith, len))
kprintf_loop-expected (numeral f c n ∷ items) (suc fuel) s v h =
    let len = length-flags_text f (conversion_char c ∷ format items) in
    let (h1, h2) = conversion_char-other c in
    kprintf_loop-field fuel f (conversion_char c) (format items) _ s v.0 h1 h2
    ∙ ap (continued fuel) (convert-numeral f c n (format items) (arguments items) s)
    ∙ continued-or_panic fuel f (format items) (arguments items) s (number_text c n)
        (expected items) (λ s'. kprintf_loop-expected items fuel s' v.1 (omega (arith, len)))

-- A format made of characters, `%%`, strings and numbers with their flags prints, on whatever
-- console, what each of them stands for, in order: a string or a numeral filled up to its width on
-- the side that the flags say; the first decimal number that is negative panics instead.
pub kprintf-expected :
    (items : List Item) (s : Console)
    → All IsItem items
    → kprintf (format items) (arguments items) s ≡ expected items s
unfolding kprintf
kprintf-expected items s v = kprintf_loop-expected items _ s v (omega arith)
