-- ===== src/Kprintf/Fields.antt =====
-- kernel/src/arch/x86_64/kprintf.c: the flags, the width and the padding of one field.
use bikeshed.Prelude.{
  ℕ, zero, suc, ◌+◌, ◌-◌, ◌*◌, ◌≡◌, refl, sym, ap, ◌∙◌, Bool, true, false, not, ◌&&◌, ◌||◌, ◌==◌,
  ltb, leb, arith, Bool-cases, inl, inr, if◌then◌else◌, List, [], ◌∷◌, ◌++◌, length, take,
  replicate, All,
}
use bikeshed.TextMode.{Console}
use bikeshed.Kprintf.{
  Flags, write_char, write_all, pad, padstr, string_length_loop, skip_char, read_width, read_flags,
  after_minus, after_zero, after_width,
}
use bikeshed.Kprintf.Items.{Field, flags_text, IsDigit, starts_with, IsField, width_of, padded}

write_all-append :
    (as_ bs : List ℕ) (s : Console) → write_all (as_ ++ bs) s ≡ write_all bs (write_all as_ s)
unfolding write_all
write_all-append [] bs s = refl
write_all-append (c ∷ as_) bs s = write_all-append as_ bs (write_char c s)

pad-write_all : (n c : ℕ) (s : Console) → pad n c s ≡ write_all (replicate n c) s
unfolding pad write_all
pad-write_all zero c s = refl
pad-write_all (suc n) c s = pad-write_all n c (write_char c s)

take-length : (str : List ℕ) → take (length str) str ≡ str
take-length [] = refl
take-length (c ∷ str) = ap (λ rest. c ∷ rest) (take-length str)

pub string_length_loop-length : (n : ℕ) (str : List ℕ) → string_length_loop n str ≡ n + length str
unfolding string_length_loop
string_length_loop-length n [] = omega arith
string_length_loop-length n (c ∷ str) = omega (arith, string_length_loop-length (n + 1) str)

-- The flags that are read from a field.
unfoldable pub field_flags : Field → Flags
field_flags f = record {
  leftadjust = f.left;
  padchar = (if f.zeros then b'0' else b' ');
  width = width_of 0 f.digits;
}

blanks_none : (n c : ℕ) (s : Console) → ltb 0 n ≡ false → write_all (replicate n c) s ≡ s
unfolding write_all
blanks_none zero c s h = refl
blanks_none (suc n) c s h = absurd (ground arith)

pub padstr-padded :
    (f : Field) (str : List ℕ) (s : Console)
    → padstr str (length str) (field_flags f) s ≡ write_all (padded f str) s
unfolding padstr padded field_flags
padstr-padded f str s =
    let n = width_of 0 f.digits - length str in
    let c = if f.zeros then b'0' else b' ' in
    let behind = write_all-append str (replicate n c) s in
    let before = write_all-append (replicate n c) str s in
    let blanks = pad-write_all n c in
    elim (Bool-cases f.left) [
      | inl e ↦ elim (Bool-cases (ltb 0 n)) [
        | inl b ↦ rw (e, take-length str, b) (blanks (write_all str s) ∙ sym behind)
        | inr b ↦ rw (e, take-length str, b) (sym (behind ∙ blanks_none n c (write_all str s) b))
      ]
      | inr e ↦ elim (Bool-cases (ltb 0 n)) [
        | inl b ↦ rw (e, take-length str, b) (ap (write_all str) (blanks s) ∙ sym before)
        | inr b ↦
            rw (e, take-length str, b) (sym (before ∙ ap (write_all str) (blanks_none n c s b)))
      ]
    ]

read_width-width_of :
    (n ch : ℕ) (ds rest : List ℕ)
    → All IsDigit ds
    → (leb b'0' ch && leb ch b'9') ≡ false
    → read_width n (ds ++ ch ∷ rest) ≡ (width_of n ds, ch ∷ rest)
unfolding read_width width_of IsDigit
read_width-width_of n ch [] rest d h = rw h refl
read_width-width_of n ch (c ∷ ds) rest d h =
    rw (is_digit d.0) (read_width-width_of (n * 10 + (c - b'0')) ch ds rest d.1 h)
  where
    is_digit : IsDigit c → (leb b'0' c && leb c b'9') ≡ true
    is_digit d = ground arith

-- An optional flag is read back, if what follows cannot be taken for it.
skip_char-flag :
    (c : ℕ) (flag : Bool) (rest : List ℕ)
    → (flag || not (starts_with c rest)) ≡ true
    → skip_char c ((if flag then c ∷ [] else []) ++ rest) ≡ (flag, rest)
unfolding skip_char starts_with
skip_char-flag c true rest h = ground arith
skip_char-flag c false [] h = refl
skip_char-flag c false (d ∷ rest) h = ground arith

or_true : (b : Bool) → (b || not false) ≡ true
or_true true = refl
or_true false = refl

-- The characters after the flags.
not_zero :
    (zeros : Bool) (ds : List ℕ) (ch : ℕ) (rest : List ℕ)
    → (zeros || not (starts_with b'0' ds)) ≡ true
    → (leb b'0' ch && leb ch b'9') ≡ false
    → (zeros || not (starts_with b'0' (ds ++ ch ∷ rest))) ≡ true
unfolding starts_with
not_zero zeros [] ch rest v h = ground arith
not_zero zeros (c ∷ ds) ch rest v h = v

not_minus :
    (zeros : Bool) (ds : List ℕ) (ch : ℕ) (rest : List ℕ)
    → All IsDigit ds
    → (ch == b'-') ≡ false
    → starts_with b'-' ((if zeros then b'0' ∷ [] else []) ++ (ds ++ ch ∷ rest)) ≡ false
unfolding starts_with IsDigit
not_minus true ds ch rest d h = ground arith
not_minus false [] ch rest d h = h
not_minus false (c ∷ ds) ch rest d h = ground arith

-- A field is read back, whatever follows it.
pub read_flags-flags_text :
    (f : Field) (ch : ℕ) (rest : List ℕ)
    → IsField f
    → (leb b'0' ch && leb ch b'9') ≡ false
    → (ch == b'-') ≡ false
    → read_flags (flags_text f (ch ∷ rest)) ≡ (field_flags f, ch ∷ rest)
unfolding read_flags after_minus after_zero after_width flags_text IsField field_flags
read_flags-flags_text f ch rest v h h' =
    let tail = f.digits ++ ch ∷ rest in
    let signs = (if f.zeros then b'0' ∷ [] else []) ++ tail in
    ap after_minus (
      skip_char-flag b'-' f.left signs
        (rw (not_minus f.zeros f.digits ch rest v.0 h') (or_true f.left)))
    ∙ ap (after_zero f.left)
        (skip_char-flag b'0' f.zeros tail (not_zero f.zeros f.digits ch rest v.1 h))
    ∙ ap (after_width f.left f.zeros) (read_width-width_of 0 ch f.digits rest v.0 h)
