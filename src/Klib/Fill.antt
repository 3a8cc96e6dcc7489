-- ===== src/Klib/Fill.antt =====
-- What memset and memclr leave in memory, byte by byte.
use native.Mathlib.Nat.{
  mul-add-div_right, mod-lt, div-add-mod', div-eq_of_lt, mul_comm, div-div-eq-div-mul, pow-suc,
  one-le-pow, add-zero, zero-div, add-mul, mul_assoc,
}
use native.Mathlib.Decide.{dec_lt}
use bikeshed.Prelude.{
  Bool, ltb, leb, ◌&&◌, each, each-at, Bool-cases, ==_iff, inl, inr, true, false, ℕ, zero, suc, ◌+◌,
  ◌-◌, ◌*◌, ◌/◌, ◌%◌, ◌^◌, ◌<◌, ◌≤◌, ◌≡◌, refl, ap, ◌∙◌, sym, ◌==◌, if◌then◌else◌, arith,
}
use bikeshed.Machine.{Mem, store, word}
use bikeshed.Klib.Bytes.{
  base_of, load_byte, store_byte, head, behind, set_bytes, set_words, memclr, copies, memset,
}

two-pow_add : (a b : ℕ) → 2 ^ (a + b) ≡ 2 ^ b * 2 ^ a
two-pow_add a zero = rw (add-zero a) (omega arith)
two-pow_add a (suc b) =
    ap (λ (t : ℕ). 2 ^ t) (let e : a + suc b ≡ suc (a + b) = omega arith in e)
    ∙ pow-suc 2 (a + b)
    ∙ ap (λ (t : ℕ). t * 2) (two-pow_add a b)
    ∙ mul_assoc (2 ^ b) (2 ^ a) 2
    ∙ ap (λ (t : ℕ). 2 ^ b * t) (mul_comm (2 ^ a) 2)
    ∙ sym (mul_assoc (2 ^ b) 2 (2 ^ a))
    ∙ ap (λ (t : ℕ). t * 2 ^ a) (sym (pow-suc 2 b))

-- A number below a part of it that starts at a multiple of `a`.
low : (a d x q : ℕ) → 0 < a → (x * (d * 256 * a) + q) / a % 256 ≡ q / a % 256
low a d x q h =
    ap (λ (t : ℕ). (t + q) / a % 256) (sym (mul_assoc x (d * 256) a))
    ∙ ap (λ (t : ℕ). t % 256) (mul-add-div_right h (x * (d * 256)) q)
    ∙ ap (λ (t : ℕ). (t + q / a) % 256) (sym (mul_assoc x d 256))
    ∙ omega arith

-- A word with the byte above the lowest k bits replaced.
abbrev splice : (k value w : ℕ) → ℕ
splice k value w = w / 2 ^ (k + 8) * 2 ^ (k + 8) + value * 2 ^ k + w % 2 ^ k

splice_high :
    (k value w : ℕ) → splice k value w ≡ (w / 2 ^ (k + 8) * 256 + value) * 2 ^ k + w % 2 ^ k
splice_high k value w =
    let high = w / 2 ^ (k + 8) in
    let sum : (high * 256 + value) * 2 ^ k ≡ high * 256 * 2 ^ k + value * 2 ^ k =
      add-mul (high * 256) value (2 ^ k) in
    let wide : high * 2 ^ (k + 8) ≡ high * 256 * 2 ^ k =
      ap (λ (t : ℕ). high * t) (two-pow_add k 8) ∙ sym (mul_assoc high 256 (2 ^ k)) in
    omega (arith, sum, wide)

splice_same : (k value w : ℕ) → value < 2 ^ 8 → splice k value w / 2 ^ k % 2 ^ 8 ≡ value
splice_same k value w h =
    let pos = one-le-pow k 2 (omega arith) in
    let e = mul-add-div_right pos (w / 2 ^ (k + 8) * 256 + value) (w % 2 ^ k) in
    let none : w % 2 ^ k / 2 ^ k ≡ 0 = div-eq_of_lt (mod-lt w pos) in
    rw (splice_high k value w) (omega (arith, e, none))

splice_above :
    (k d value w : ℕ) → value < 2 ^ 8 → splice k value w / 2 ^ (k + 8 + d) ≡ w / 2 ^ (k + 8 + d)
splice_above k d value w h =
    let pos = one-le-pow (k + 8) 2 (omega arith) in
    let first : splice k value w / 2 ^ (k + 8) ≡ w / 2 ^ (k + 8) =
      (let rest = value * 2 ^ k + w % 2 ^ k in
        let small : rest < 2 ^ (k + 8) =
          grind (arith, two-pow_add k 8, mod-lt w (one-le-pow k 2 (omega arith))) in
        let none : rest / 2 ^ (k + 8) ≡ 0 = div-eq_of_lt small in
        let e = mul-add-div_right pos (w / 2 ^ (k + 8)) rest in
        let apart : splice k value w ≡ w / 2 ^ (k + 8) * 2 ^ (k + 8) + rest = omega arith in
        ap (λ (t : ℕ). t / 2 ^ (k + 8)) apart ∙ e ∙ omega (arith, none)) in
    let split : (x : ℕ) → x / 2 ^ (k + 8 + d) ≡ x / 2 ^ (k + 8) / 2 ^ d = λ x.
      ap (λ (t : ℕ). x / t) (two-pow_add (k + 8) d ∙ mul_comm (2 ^ d) (2 ^ (k + 8)))
      ∙ sym (div-div-eq-div-mul x (2 ^ (k + 8)) (2 ^ d)) in
    split (splice k value w) ∙ ap (λ (t : ℕ). t / 2 ^ d) first ∙ sym (split w)

splice_below : (j d value w : ℕ) → splice (j + 8 + d) value w / 2 ^ j % 2 ^ 8 ≡ w / 2 ^ j % 2 ^ 8
splice_below j d value w =
    let k = j + 8 + d in
    let parts : 2 ^ k ≡ 2 ^ d * 256 * 2 ^ j =
      two-pow_add (j + 8) d
      ∙ ap (λ (t : ℕ). 2 ^ d * t) (two-pow_add j 8)
      ∙ sym (mul_assoc (2 ^ d) 256 (2 ^ j)) in
    let pos = one-le-pow j 2 (omega arith) in
    ap (λ (t : ℕ). t / 2 ^ j % 256)
      (splice_high k value w
        ∙ ap (λ (t : ℕ). (w / 2 ^ (k + 8) * 256 + value) * t + w % 2 ^ k) parts)
    ∙ low (2 ^ j) (2 ^ d) (w / 2 ^ (k + 8) * 256 + value) (w % 2 ^ k) pos
    ∙ sym (low (2 ^ j) (2 ^ d) (w / 2 ^ k) (w % 2 ^ k) pos)
    ∙ ap (λ (t : ℕ). t / 2 ^ j % 256)
        (ap (λ (t : ℕ). w / 2 ^ k * t + w % 2 ^ k) (sym parts) ∙ div-add-mod' w (2 ^ k))

-- Byte `j` of a word in which byte `i` was replaced.
splice_byte :
    (i j value w : ℕ)
    → value < 2 ^ 8
    → splice (8 * i) value w / 2 ^ (8 * j) % 2 ^ 8
      ≡ (if j == i then value else w / 2 ^ (8 * j) % 2 ^ 8)
splice_byte i j value w h = elim (dec_lt i j) [
  | yes lt ↦
      let at : 8 * j ≡ 8 * i + 8 + (8 * j - (8 * i + 8)) = omega arith in
      let other : (j == i) ≡ false = ground arith in
      let e = splice_above (8 * i) (8 * j - (8 * i + 8)) value w h in
      rw (other, at) (ap (λ (t : ℕ). t % 2 ^ 8) e)
  | no ge ↦ elim (dec_lt j i) [
    | yes gt ↦
        let at : 8 * i ≡ 8 * j + 8 + (8 * i - (8 * j + 8)) = omega arith in
        let other : (j == i) ≡ false = ground arith in
        let e = splice_below (8 * j) (8 * i - (8 * j + 8)) value w in rw (other, at) e
    | no le ↦
        let same : j ≡ i = omega arith in
        let here : (i == i) ≡ true = ground arith in rw (same, here) (splice_same (8 * i) value w h)
  ]
]

pub load-store_byte :
    (m : Mem) (a value b : ℕ)
    → value < 2 ^ 8
    → load_byte (store_byte m a value) b ≡ (if b == a then value else load_byte m b)
unfolding load_byte store_byte
load-store_byte m a value b h = elim (Bool-cases (base_of b == base_of a)) [
  | inl same ↦
      let at : base_of b ≡ base_of a = (==_iff (base_of b) (base_of a)).0 same in
      let byte = splice_byte (a % 8) (b % 8) value (m (base_of a)) h in
      let hit : store_byte m a value (base_of b) ≡ splice (8 * (a % 8)) value (m (base_of a)) =
        ground arith in
      let tests : (b % 8 == a % 8) ≡ (b == a) = ground arith in
      ap (λ (w : ℕ). w / 2 ^ (8 * (b % 8)) % 2 ^ 8) hit
      ∙ byte
      ∙ ap (λ c. if c then value else m (base_of a) / 2 ^ (8 * (b % 8)) % 2 ^ 8) tests
      ∙ ap (λ (x : ℕ). if b == a then value else m x / 2 ^ (8 * (b % 8)) % 2 ^ 8) (sym at)
  | inr other ↦
      let miss : store_byte m a value (base_of b) ≡ m (base_of b) = ground arith in
      let apart : (b == a) ≡ false = ground arith in
      rw apart (ap (λ (w : ℕ). w / 2 ^ (8 * (b % 8)) % 2 ^ 8) miss)
]

-- `b` is one of the `n` addresses from `p` on.
abbrev pub within : (p n b : ℕ) → Bool
within p n b = leb p b && ltb b (p + n)

set_bytes-byte :
    (value n p : ℕ) (m : Mem) (b : ℕ)
    → value < 2 ^ 8
    → load_byte (set_bytes value n p m) b ≡ (if within p n b then value else load_byte m b)
unfolding set_bytes
set_bytes-byte value zero p m b h = let none : within p 0 b ≡ false = ground arith in rw none refl
set_bytes-byte value (suc n) p m b h =
    let rest = set_bytes-byte value n (p + 1) (store_byte m p value) b h in
    let first = load-store_byte m p value b h in ground (arith, rest, first)

-- Every byte of the word is `value`.
IsFilled : (value w : ℕ) → Type 0
IsFilled value w = (j : ℕ) → j < 8 → w / 2 ^ (8 * j) % 2 ^ 8 ≡ value

load_byte-store :
    (m : Mem) (value w p b : ℕ)
    → IsFilled value w
    → p % 8 ≡ 0
    → load_byte (store m p w) b ≡ (if within p 8 b then value else load_byte m b)
unfolding load_byte IsFilled
load_byte-store m value w p b filled aligned = elim (Bool-cases (base_of b == p)) [
  | inl here ↦
      let inside : within p 8 b ≡ true = ground arith in
      let hit : store m p w (base_of b) ≡ w = ground arith in
      rw inside (ap (λ (x : ℕ). x / 2 ^ (8 * (b % 8)) % 2 ^ 8) hit ∙ filled (b % 8) (omega arith))
  | inr other ↦
      let outside : within p 8 b ≡ false = ground arith in
      let miss : store m p w (base_of b) ≡ m (base_of b) = ground arith in
      rw outside (ap (λ (x : ℕ). x / 2 ^ (8 * (b % 8)) % 2 ^ 8) miss)
]

set_words-byte :
    (value w n p : ℕ) (m : Mem) (b : ℕ)
    → IsFilled value w
    → p % 8 ≡ 0
    → load_byte (set_words w n p m) b ≡ (if within p (8 * n) b then value else load_byte m b)
unfolding set_words
set_words-byte value w zero p m b filled aligned =
    let none : within p (8 * 0) b ≡ false = ground arith in rw none refl
set_words-byte value w (suc n) p m b filled aligned =
    let rest = set_words-byte value w n (p + 8) (store m p w) b filled (omega arith) in
    let first = load_byte-store m value w p b filled aligned in ground (arith, rest, first)

all_copies : each (λ value. each (λ j. copies value / 2 ^ (8 * j) % 2 ^ 8 == value) 8) 256 ≡ true
unfolding each copies
all_copies = refl

copies-IsFilled : (value : ℕ) → value < 2 ^ 8 → IsFilled value (copies value)
unfolding IsFilled
copies-IsFilled value h j below =
    (==_iff (copies value / 2 ^ (8 * j) % 2 ^ 8) value).0
      (each-at _ 8 j (each-at _ 256 value all_copies h) below)

-- The head, the words and the tail of a block are together the block.
filled-byte :
    (ptr value w size : ℕ) (m : Mem) (b : ℕ)
    → value < 2 ^ 8
    → IsFilled value w
    → head ptr ≤ size
    → size < word
    → let p = ptr + head ptr in
      let left = behind ptr size in
      let words = set_words w (left / 8) p (set_bytes value (head ptr) ptr m) in
      load_byte (set_bytes value (left % 8) (p + left / 8 * 8) words) b
      ≡ (if within ptr size b then value else load_byte m b)
unfolding head behind
filled-byte ptr value w size m b h filled k l =
    let p = ptr + head ptr in
    let left = behind ptr size in
    let m1 = set_bytes value (head ptr) ptr m in
    let rest : left ≡ size - head ptr = omega arith in
    let aligned : p % 8 ≡ 0 = omega arith in
    let first = set_bytes-byte value (head ptr) ptr m b h in
    let second = set_words-byte value w (left / 8) p m1 b filled aligned in
    let third =
      set_bytes-byte value (left % 8) (p + left / 8 * 8) (set_words w (left / 8) p m1) b h in
    ground (arith, first, second, third)

zero-IsFilled : IsFilled 0 0
unfolding IsFilled
zero-IsFilled j below = ap (λ (t : ℕ). t % 2 ^ 8) (zero-div (2 ^ (8 * j)))

-- memset writes `value` to the bytes from `ptr` on, `size` of them, and leaves every other byte;
-- memclr does it with 0. The block may begin and end anywhere, but it must not end before the
-- first multiple of 8 behind `ptr`.
pub memset-byte :
    (ptr value size : ℕ) (m : Mem) (b : ℕ)
    → value < 2 ^ 8
    → head ptr ≤ size
    → size < word
    → (load_byte (memset ptr value size m) b
        ≡ (if leb ptr b && ltb b (ptr + size) then value else load_byte m b))
      × (load_byte (memclr ptr size m) b
          ≡ (if leb ptr b && ltb b (ptr + size) then 0 else load_byte m b))
unfolding memset memclr
memset-byte ptr value size m b h k l = (
  filled-byte ptr value (copies value) size m b h (copies-IsFilled value h) k l,
  filled-byte ptr 0 0 size m b (omega arith) zero-IsFilled k l,
)
