-- ===== src/Kprintf/Ends.antt =====
-- kernel/src/arch/x86_64/kprintf.c: the loop ends, whatever the format.
use bikeshed.Prelude.{
  ℕ, zero, suc, ◌+◌, ◌*◌, ◌-◌, ◌≤◌, ◌<◌, ◌≢◌, Bool, true, false, ◌==◌, ◌||◌, arith, if◌then◌else◌,
  List, [], ◌∷◌, length, Option, none, some,
}
use bikeshed.TextMode.{Console}
use bikeshed.Kprintf.Format.{continued, loop_round}
use bikeshed.Kprintf.{
  Argument, number, string, returned, panicked, no_argument, out_of_fuel, Round, again, stop, Flags,
  write_char, number_round, print_number, print_string, convert, skip_char, read_width, after_width,
  after_zero, after_minus, read_flags, plain, directive, after_plain, kprintf_loop, kprintf,
}

-- A round that goes on has less than some characters left, and a round that stops has an answer.
Shrinks : ℕ → Round → Type 0
Shrinks n (again fmt args s) = length fmt < n
Shrinks n (stop (returned s)) = Unit
Shrinks n (stop (panicked s)) = Unit
Shrinks n (stop no_argument) = Unit
Shrinks n (stop out_of_fuel) = ⊥

if_Shrinks :
    (n : ℕ) (b : Bool) (r r' : Round) → Shrinks n r → Shrinks n r' → Shrinks n (if b then r else r')
if_Shrinks n true r r' h h' = h
if_Shrinks n false r r' h h' = h'

number_round-Shrinks :
    (n : ℕ) (f : Flags) (fmt : List ℕ) (args : List Argument) (s : Console) (o : Option (List ℕ))
    → length fmt < n
    → Shrinks n (number_round f fmt args s o)
unfolding number_round Shrinks
number_round-Shrinks n f fmt args s none h = tt
number_round-Shrinks n f fmt args s (some str) h = h

print_number-Shrinks :
    (n : ℕ) (c : ℕ → Option (List ℕ)) (f : Flags) (fmt : List ℕ) (args : List Argument)
    (s : Console)
    → length fmt < n
    → Shrinks n (print_number c f fmt args s)
unfolding print_number Shrinks
print_number-Shrinks n c f fmt (number k ∷ args) s h = number_round-Shrinks n f fmt args s (c k) h
print_number-Shrinks n c f fmt (string str ∷ args) s h = tt
print_number-Shrinks n c f fmt [] s h = tt

print_string-Shrinks :
    (n : ℕ) (f : Flags) (fmt : List ℕ) (args : List Argument) (s : Console)
    → length fmt < n
    → Shrinks n (print_string f fmt args s)
unfolding print_string Shrinks
print_string-Shrinks n f fmt (string str ∷ args) s h = h
print_string-Shrinks n f fmt (number k ∷ args) s h = tt
print_string-Shrinks n f fmt [] s h = tt

again-Shrinks :
    (n : ℕ) (fmt : List ℕ) (args : List Argument) (s : Console)
    → length fmt < n
    → Shrinks n (again fmt args s)
unfolding Shrinks
again-Shrinks n fmt args s h = h

panicked-Shrinks : (n : ℕ) (s : Console) → Shrinks n (stop (panicked s))
unfolding Shrinks
panicked-Shrinks n s = tt

convert-Shrinks :
    (n ch : ℕ) (f : Flags) (fmt : List ℕ) (args : List Argument) (s : Console)
    → length fmt < n
    → Shrinks n (convert ch f fmt args s)
unfolding convert
convert-Shrinks n ch f fmt args s h =
    let num : (c : ℕ → Option (List ℕ)) → Shrinks n (print_number c f fmt args s) =
      λ c. print_number-Shrinks n c f fmt args s h in
    (if_Shrinks n (ch == b'c' || ch == b'C') _ _ (num _) (
      if_Shrinks n (ch == b'd' || ch == b'D') _ _ (num _) (
        if_Shrinks n (ch == b'u' || ch == b'U') _ _ (num _) (
          if_Shrinks n (ch == b's' || ch == b'S') _ _ (print_string-Shrinks n f fmt args s h) (
            if_Shrinks n (ch == b'x' || ch == b'X') _ _ (num _) (
              if_Shrinks n (ch == b'b' || ch == b'B') _ _ (num _) (
                if_Shrinks n (ch == b'o' || ch == b'O') _ _ (num _) (
                  if_Shrinks n (ch == b'%') _ _ (again-Shrinks n fmt args _ h)
                    (panicked-Shrinks n _)))))))))

length-skip_char : (c : ℕ) (fmt : List ℕ) → length (skip_char c fmt).1 ≤ length fmt
unfolding skip_char
length-skip_char c [] = omega arith
length-skip_char c (ch ∷ fmt) = ground arith

length-read_width : (w : ℕ) (fmt : List ℕ) → length (read_width w fmt).1 ≤ length fmt
unfolding read_width
length-read_width w [] = omega arith
length-read_width w (ch ∷ fmt) = ground (arith, length-read_width (w * 10 + (ch - b'0')) fmt)

length-read_flags : (fmt : List ℕ) → length (read_flags fmt).1 ≤ length fmt
unfolding read_flags after_minus after_zero after_width
length-read_flags fmt =
    let a = skip_char b'-' fmt in
    let b = skip_char b'0' a.1 in
    omega (arith, length-skip_char b'-' fmt, length-skip_char b'0' a.1, length-read_width 0 b.1)

length-plain : (fmt : List ℕ) (s : Console) → length (plain fmt s).0 ≤ length fmt
unfolding plain
length-plain [] s = omega arith
length-plain (ch ∷ fmt) s = ground (arith, length-plain fmt (write_char ch s))

directive-Shrinks :
    (n : ℕ) (p : Flags × List ℕ) (args : List Argument) (s : Console)
    → length p.1 ≤ n
    → Shrinks n (directive p args s)
unfolding directive Shrinks
directive-Shrinks n (f, []) args s h = tt
directive-Shrinks n (f, ch ∷ fmt) args s h = convert-Shrinks n ch f fmt args s (omega arith)

after_plain-Shrinks :
    (n : ℕ) (p : List ℕ × Console) (args : List Argument)
    → length p.0 ≤ n
    → Shrinks n (after_plain p args)
unfolding after_plain Shrinks
after_plain-Shrinks n ([], s) args h = tt
after_plain-Shrinks n (percent ∷ fmt, s) args h =
    directive-Shrinks n (read_flags fmt) args s (omega (arith, length-read_flags fmt))

continued-ends :
    (n fuel : ℕ) (r : Round)
    → ((fmt : List ℕ) (args : List Argument) (s : Console)
        → length fmt < n
        → kprintf_loop fuel fmt args s ≢ out_of_fuel)
    → Shrinks n r
    → continued fuel r ≢ out_of_fuel
unfolding continued Shrinks
continued-ends n fuel (again fmt args s) rest small = rest fmt args s small
continued-ends n fuel (stop (returned s)) rest u = λ e. absurd (cc)
continued-ends n fuel (stop (panicked s)) rest u = λ e. absurd (cc)
continued-ends n fuel (stop no_argument) rest u = λ e. absurd (cc)
continued-ends n fuel (stop out_of_fuel) rest u = absurd u

kprintf_loop-ends :
    (fuel : ℕ) (fmt : List ℕ) (args : List Argument) (s : Console)
    → length fmt < fuel
    → kprintf_loop fuel fmt args s ≢ out_of_fuel
kprintf_loop-ends zero fmt args s h = absurd (omega arith)
kprintf_loop-ends (suc fuel) fmt args s h = rw (loop_round fuel fmt args s) (
    continued-ends (length fmt) fuel (after_plain (plain fmt s) args)
      (λ fmt' args' s' small. kprintf_loop-ends fuel fmt' args' s' (omega arith))
      (after_plain-Shrinks (length fmt) (plain fmt s) args (length-plain fmt s)))

-- On every format and all arguments, `kprintf` ends within a round for each character of the format
-- and one more: it returns, panics or asks for an argument that is not there.
pub kprintf-ends :
    (fmt : List ℕ) (args : List Argument) (s : Console) → kprintf fmt args s ≢ out_of_fuel
unfolding kprintf
kprintf-ends fmt args s = kprintf_loop-ends _ fmt args s (omega arith)
