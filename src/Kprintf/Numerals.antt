-- ===== src/Kprintf/Numerals.antt =====
-- kernel/src/arch/x86_64/kprintf.c: what the numerals stand for.
use bikeshed.Prelude.{
  ℕ, zero, suc, ◌+◌, ◌-◌, ◌*◌, ◌/◌, ◌%◌, ◌^◌, ◌≤◌, ◌<◌, ◌≡◌, refl, sym, ap, ◌∙◌, true, ◌==◌, ==_iff,
  ltb, lt→ltb, arith, Bool-cases, inl, inr, if◌then◌else◌, List, [], ◌∷◌, none, some, length,
  get_or,
}
use bikeshed.Prelude.Int.{pos, negsuc}
use native.Mathlib.Nat.{
  mod-lt, mod-eq_of_lt, add-mul-mod_self_right, pow-suc, pow-zero, one-le-pow, div-eq_of_lt,
  div-lt_iff_lt-mul, mul-le-mul_right, div-add-mod',
}
use bikeshed.Kprintf.{
  buffer_len, hexdigits, radix_loop, convert_radix, decimal_loop, convert_decimal,
}

regroup : (a b m r : ℕ) → (a * m + b) * r ≡ b * r + a * (m * r)
regroup a b m r = omega arith

-- A remainder digit by digit.
mod_split : (n r m : ℕ) → 0 < r → 0 < m → (n / r % m) * r + n % r ≡ n % (m * r)
mod_split n r m hr hm =
    let q = n / r in
    let whole : n ≡ (q % m * r + n % r) + q / m * (m * r) =
      omega (
        arith,
        div-add-mod' n r,
        ap (λ x. x * r) (div-add-mod' q m),
        regroup (q / m) (q % m) m r,
      ) in
    let low : q % m * r + n % r < m * r =
      omega (arith, mul-le-mul_right r (mod-lt q hm), mod-lt n hr, regroup 1 (q % m) 1 r) in
    sym (ap (λ x. x % (m * r)) whole ∙ add-mul-mod_self_right _ (q / m) (m * r) ∙ mod-eq_of_lt low)

-- The number of a numeral, from the value of the digits before it.
pub digit_value : ℕ → ℕ
digit_value c = if ltb c b'A' then c - b'0' else c - b'A' + 10

pub value_from : ℕ → ℕ → List ℕ → ℕ
value_from radix v [] = v
value_from radix v (c ∷ cs) = value_from radix (v * radix + digit_value c) cs

hexdigits-digit_value : (d : ℕ) → d < 16 → digit_value (get_or hexdigits d 0) ≡ d
unfolding digit_value
hexdigits-digit_value d h = grind arith

-- The numeral stands for the number modulo what fits in the places that are left.
radix_loop-value_from :
    (free radix value : ℕ) (buf : List ℕ)
    → 2 ≤ radix
    → radix ≤ 16
    → value_from radix 0 (radix_loop free radix value buf)
      ≡ value_from radix (value % radix ^ free) buf
unfolding radix_loop value_from
radix_loop-value_from zero radix value buf l h =
    ap (λ v. value_from radix v buf) (omega (arith, pow-zero radix))
radix_loop-value_from (suc index) radix value buf l h =
    let d = value % radix in
    let c = get_or hexdigits d 0 in
    let small : d < radix = mod-lt value (omega arith) in
    let digit : digit_value c ≡ d = hexdigits-digit_value d (omega arith) in
    let split : (value / radix % radix ^ index) * radix + d ≡ value % (radix ^ index * radix) =
      mod_split value radix (radix ^ index) (omega arith) (one-le-pow index radix (omega arith)) in
    let whole : (value / radix % radix ^ index) * radix + digit_value c
        ≡ value % radix ^ suc index =
      ap (λ x. (value / radix % radix ^ index) * radix + x) digit
      ∙ split
      ∙ ap (λ x. value % x) (sym (pow-suc radix index)) in
    elim (Bool-cases (value / radix == 0)) [
      | inl e ↦ rw e (
          ap (λ v. value_from radix v buf) (first e (one-le-pow index radix (omega arith)) ∙ whole))
      | inr e ↦ rw e (
          radix_loop-value_from index radix (value / radix) (c ∷ buf) l h
          ∙ ap (λ v. value_from radix v buf) whole)
    ]
  where
    first :
        (value / radix == 0) ≡ true
        → 1 ≤ radix ^ index
        → 0 * radix + digit_value (get_or hexdigits (value % radix) 0)
          ≡ (value / radix % radix ^ index) * radix
            + digit_value (get_or hexdigits (value % radix) 0)
    first e some_power = rw ((==_iff (value / radix) 0).0 e, mod-eq_of_lt some_power) refl

-- The numeral is no longer than it must be.
radix_loop-length :
    (k free radix value : ℕ) (buf : List ℕ)
    → value < radix ^ suc k
    → 2 ≤ radix
    → length (radix_loop free radix value buf) ≤ suc k + length buf
unfolding radix_loop
radix_loop-length k zero radix value buf h l = omega arith
radix_loop-length zero (suc free) radix value buf h l =
    let one : radix ^ 1 ≡ radix =
      pow-suc radix 0 ∙ ap (λ x. x * radix) (pow-zero radix) ∙ omega arith in
    let e : value / radix ≡ 0 = div-eq_of_lt (omega (arith, h, one)) in rw e (omega arith)
radix_loop-length (suc k) (suc free) radix value buf h l =
    let rest =
      radix_loop-length k free radix (value / radix) (get_or hexdigits (value % radix) 0 ∷ buf)
        ((div-lt_iff_lt-mul (omega arith)).1 (omega (arith, h, pow-suc radix (suc k)))) l in
    ground (arith, rest)

-- The numeral of a number in a radix from 2 to 16 stands for the number modulo 21 digits, and is as
-- short as the number allows.
pub convert_radix-value_from :
    (radix value k : ℕ)
    → 2 ≤ radix
    → radix ≤ 16
    → value < radix ^ suc k
    → (value_from radix 0 (convert_radix radix value) ≡ value % radix ^ 21)
      × (length (convert_radix radix value) ≤ suc k)
unfolding convert_radix value_from
convert_radix-value_from radix value k l h small = (
  radix_loop-value_from 21 radix value [] l h,
  omega (arith, radix_loop-length k 21 radix value [] small l),
)

decimal_loop-radix_loop :
    (free value : ℕ) (buf : List ℕ) → decimal_loop free value buf ≡ radix_loop free 10 value buf
unfolding decimal_loop radix_loop
decimal_loop-radix_loop zero value buf = refl
decimal_loop-radix_loop (suc free) value buf =
    let char : value % 10 + b'0' ≡ get_or hexdigits (value % 10) 0 =
      decimal_char (value % 10) (omega arith) in
    rw (char, decimal_loop-radix_loop free (value / 10) (get_or hexdigits (value % 10) 0 ∷ buf))
      refl
  where
    decimal_char : (d : ℕ) → d < 10 → d + b'0' ≡ get_or hexdigits d 0
    decimal_char d h = grind arith

-- `convert_decimal` gives the decimal numeral of a signed 64-bit number that is not negative, and
-- panics for every negative one.
convert_decimal-panics :
    (n : ℕ)
    → n < 2 ^ 63
    → (convert_decimal (negsuc n) ≡ none)
      × ((buf : List ℕ) × (convert_decimal (pos n) ≡ some buf) × (value_from 10 0 buf ≡ n))
unfolding convert_decimal value_from
convert_decimal-panics n h =
    let short : length (radix_loop 21 10 (n + 1) []) ≤ 19 =
      radix_loop-length 18 21 10 (n + 1) [] (omega arith) (omega arith) in
    (
      rw (decimal_loop-radix_loop 21 (n + 1) [])
          (rw (lt→ltb (length (radix_loop 21 10 (n + 1) [])) 21 (omega arith)) refl),
      (
        decimal_loop buffer_len n [],
        refl,
        rw (decimal_loop-radix_loop 21 n []) (
            radix_loop-value_from 21 10 n [] (omega arith) (omega arith)
            ∙ mod-eq_of_lt (omega arith)),
      ),
    )
