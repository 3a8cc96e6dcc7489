-- ===== src/Klib/Bytes.antt =====
-- kernel/src/kernel/klib.c, whole: the routines on bytes, with their unaligned heads and tails, over
-- a memory of aligned words. On aligned blocks of whole words they are the loops of `Klib`.
use native.Mathlib.Nat.{add-zero}
use bikeshed.Prelude.{
  ℕ, zero, suc, ◌+◌, ◌-◌, ◌*◌, ◌/◌, ◌%◌, ◌^◌, ◌<◌, ◌≡◌, refl, ap, ◌∙◌, bit_or, ◌==◌, if◌then◌else◌,
  arith,
}
use bikeshed.Machine.{Mem, store, word}
use bikeshed.Klib
use bikeshed.Klib.{clear_words, copy_words}

abbrev pub base_of : ℕ → ℕ
base_of a = a / 8 * 8

unfoldable pub load_byte : Mem → ℕ → ℕ
load_byte m a = m (base_of a) / 2 ^ (8 * (a % 8)) % 2 ^ 8

unfoldable pub store_byte : Mem → (a value : ℕ) → Mem
store_byte m a value =
    let w = m (base_of a) in
    let k = 8 * (a % 8) in
    store m (base_of a) (w / 2 ^ (k + 8) * 2 ^ (k + 8) + value * 2 ^ k + w % 2 ^ k)

-- A word at any address, from the two aligned words that it lies in.
unfoldable pub load_word : Mem → ℕ → ℕ
load_word m a =
    let k = 8 * (a % 8) in
    if a % 8 == 0 then m a else m (base_of a) / 2 ^ k + m (base_of a + 8) % 2 ^ k * 2 ^ (64 - k)

-- The bytes up to an aligned address, and the size behind them, which wraps around.
unfoldable pub head : ℕ → ℕ
head p = (8 - p % 8) % 8

unfoldable pub behind : (p size : ℕ) → ℕ
unfolding head
behind p size = (size + word - head p) % word

unfoldable pub set_bytes : (value n p : ℕ) → Mem → Mem
set_bytes value zero p m = m
set_bytes value (suc n) p m = set_bytes value n (p + 1) (store_byte m p value)

unfoldable pub set_words : (value n p : ℕ) → Mem → Mem
set_words value zero p m = m
set_words value (suc n) p m = set_words value n (p + 8) (store m p value)

unfoldable pub memclr : (ptr size : ℕ) → Mem → Mem
memclr ptr size m =
    let p = ptr + head ptr in
    let left = behind ptr size in
    let m1 = set_bytes 0 (head ptr) ptr m in
    let m2 = set_words 0 (left / 8) p m1 in set_bytes 0 (left % 8) (p + left / 8 * 8) m2

-- Eight copies of a byte.
unfoldable pub copies : ℕ → ℕ
copies val =
    let two = bit_or (val * 2 ^ 8) val in
    let four = bit_or two (two * 2 ^ 16) in bit_or four (four * 2 ^ 32 % word)

unfoldable pub memset : (ptr val size : ℕ) → Mem → Mem
memset ptr val size m =
    let p = ptr + head ptr in
    let left = behind ptr size in
    let m1 = set_bytes val (head ptr) ptr m in
    let m2 = set_words (copies val) (left / 8) p m1 in
    set_bytes val (left % 8) (p + left / 8 * 8) m2

unfoldable pub move_bytes : (n dst src : ℕ) → Mem → Mem
move_bytes zero dst src m = m
move_bytes (suc n) dst src m = move_bytes n (dst + 1) (src + 1) (store_byte m dst (load_byte m src))

unfoldable pub move_words : (n dst src : ℕ) → Mem → Mem
move_words zero dst src m = m
move_words (suc n) dst src m = move_words n (dst + 8) (src + 8) (store m dst (load_word m src))

unfoldable pub memcpy : (dst src size : ℕ) → Mem → Mem
memcpy dst src size m =
    let d = dst + head dst in
    let s = src + head dst in
    let left = behind dst size in
    let m1 = move_bytes (head dst) dst src m in
    let m2 = move_words (left / 8) d s m1 in
    move_bytes (left % 8) (d + left / 8 * 8) (s + left / 8 * 8) m2

set_words-clear_words : (n p : ℕ) (m : Mem) → set_words 0 n p m ≡ clear_words n p m
unfolding set_words clear_words
set_words-clear_words zero p m = refl
set_words-clear_words (suc n) p m = set_words-clear_words n (p + 8) (store m p 0)

move_words-copy_words :
    (n dst src : ℕ) (m : Mem) → src % 8 ≡ 0 → move_words n dst src m ≡ copy_words n dst src m
unfolding move_words copy_words load_word
move_words-copy_words zero dst src m h = refl
move_words-copy_words (suc n) dst src m h =
    ap (λ (w : ℕ). move_words n (dst + 8) (src + 8) (store m dst w)) (ground arith)
    ∙ move_words-copy_words n (dst + 8) (src + 8) (store m dst (m src)) (omega arith)

pub no_head : (p : ℕ) → p % 8 ≡ 0 → head p ≡ 0
unfolding head
no_head p h = omega arith

no_tail : (p size : ℕ) → p % 8 ≡ 0 → size % 8 ≡ 0 → size < word → behind p size ≡ size
unfolding behind
no_tail p size h k b = omega arith

-- On an aligned block of whole words, the three routines write whole words only: memclr and memset
-- of 0 are the loop of `Klib.memclr`, and memcpy from an aligned source is that of `Klib.memcpy`.
memory-words :
    (ptr src size : ℕ) (m : Mem)
    → ptr % 8 ≡ 0
    → src % 8 ≡ 0
    → size % 8 ≡ 0
    → size < word
    → (memclr ptr size m ≡ Klib.memclr ptr size m)
      × (memset ptr 0 size m ≡ Klib.memclr ptr size m)
      × (memcpy ptr src size m ≡ Klib.memcpy ptr src size m)
unfolding memclr memset memcpy Klib.memclr Klib.memcpy set_bytes move_bytes copies
memory-words ptr src size m h hs k b =
    let none = no_head ptr h in
    let all = no_tail ptr size h k b in
    (
      rw (all, none, k, add-zero ptr) (set_words-clear_words (size / 8) ptr m),
      rw (all, none, k, add-zero ptr) (set_words-clear_words (size / 8) ptr m),
      rw (all, none, k, add-zero ptr, add-zero src) (move_words-copy_words (size / 8) ptr src m hs),
    )
