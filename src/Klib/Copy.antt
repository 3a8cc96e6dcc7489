-- ===== src/Klib/Copy.antt =====
-- What memcpy leaves in memory, byte by byte, for aligned blocks.
use native.Mathlib.Nat.{add-zero}
use bikeshed.Prelude.{
  ℕ, zero, suc, ◌+◌, ◌-◌, ◌*◌, ◌/◌, ◌%◌, ◌^◌, ◌<◌, ◌≤◌, ◌≡◌, ◌⊎◌, inl, inr, refl, ap, ◌∙◌, ◌==◌,
  true, false, if◌then◌else◌, Bool-cases, ==_iff, arith,
}
use bikeshed.Machine.{Mem, store, word}
use bikeshed.Klib.Bytes.{
  base_of, load_byte, store_byte, load_word, head, behind, move_bytes, move_words, memcpy, no_head,
}
use bikeshed.Klib.Fill.{within, load-store_byte}

-- Two blocks of `n` bytes that do not overlap.
abbrev pub Disjoint : (dst src n : ℕ) → Type 0
Disjoint dst src n = (dst + n ≤ src) ⊎ (src + n ≤ dst)

load_byte-lt : (m : Mem) (a : ℕ) → load_byte m a < 2 ^ 8
unfolding load_byte
load_byte-lt m a = omega arith

move_bytes-byte :
    (n dst src : ℕ) (m : Mem) (b : ℕ)
    → Disjoint dst src n
    → load_byte (move_bytes n dst src m) b
      ≡ (if within dst n b then load_byte m (src + (b - dst)) else load_byte m b)
unfolding move_bytes
move_bytes-byte zero dst src m b apart =
    let none : within dst 0 b ≡ false = ground arith in rw none refl
move_bytes-byte (suc n) dst src m b apart =
    let m1 = store_byte m dst (load_byte m src) in
    let rest = move_bytes-byte n (dst + 1) (src + 1) m1 b (ground arith) in
    let first = λ (x : ℕ). load-store_byte m dst (load_byte m src) x (load_byte-lt m src) in
    elim (Bool-cases (within (dst + 1) n b)) [
      | inl later ↦
          let inside : within dst (suc n) b ≡ true = ground arith in
          let at : src + 1 + (b - (dst + 1)) ≡ src + (b - dst) = ground arith in
          let off : (src + (b - dst) == dst) ≡ false = ground arith in
          rw inside (rest ∙ rw (later, at) (first (src + (b - dst)) ∙ rw off refl))
      | inr now ↦ elim (Bool-cases (b == dst)) [
        | inl here ↦
            let same : b ≡ dst = (==_iff b dst).0 here in
            let inside : within dst (suc n) b ≡ true = ground arith in
            let at : src + (b - dst) ≡ src = omega arith in
            rw (inside, at) (rest ∙ rw now (first b ∙ rw here refl))
        | inr other ↦
            let outside : within dst (suc n) b ≡ false = ground arith in
            rw outside (rest ∙ rw now (first b ∙ rw other refl))
      ]
    ]

-- One word, from an aligned block to another.
word_copied :
    (dst src : ℕ) (m : Mem) (b : ℕ)
    → dst % 8 ≡ 0
    → src % 8 ≡ 0
    → load_byte (store m dst (load_word m src)) b
      ≡ (if within dst 8 b then load_byte m (src + (b - dst)) else load_byte m b)
unfolding load_byte load_word
word_copied dst src m b aligned aligned' = elim (Bool-cases (within dst 8 b)) [
  | inl inside ↦
      let here : base_of b ≡ dst = ground arith in
      let there : base_of (src + (b - dst)) ≡ src = ground arith in
      let same : (src + (b - dst)) % 8 ≡ b % 8 = ground arith in
      let hit : store m dst (load_word m src) (base_of b) ≡ m src = ground arith in
      rw (inside, there, same) (ap (λ (w : ℕ). w / 2 ^ (8 * (b % 8)) % 2 ^ 8) hit)
  | inr outside ↦
      let miss : store m dst (load_word m src) (base_of b) ≡ m (base_of b) = ground arith in
      rw outside (ap (λ (w : ℕ). w / 2 ^ (8 * (b % 8)) % 2 ^ 8) miss)
]

move_words-byte :
    (n dst src : ℕ) (m : Mem) (b : ℕ)
    → dst % 8 ≡ 0
    → src % 8 ≡ 0
    → Disjoint dst src (8 * n)
    → load_byte (move_words n dst src m) b
      ≡ (if within dst (8 * n) b then load_byte m (src + (b - dst)) else load_byte m b)
unfolding move_words
move_words-byte zero dst src m b aligned aligned' apart =
    let none : within dst (8 * 0) b ≡ false = ground arith in rw none refl
move_words-byte (suc n) dst src m b aligned aligned' apart =
    let m1 = store m dst (load_word m src) in
    let rest =
      move_words-byte n (dst + 8) (src + 8) m1 b (omega arith) (omega arith) (ground arith) in
    elim (Bool-cases (within (dst + 8) (8 * n) b)) [
      | inl later ↦
          let inside : within dst (8 * suc n) b ≡ true = ground arith in
          let at : src + 8 + (b - (dst + 8)) ≡ src + (b - dst) = ground arith in
          let off : within dst 8 (src + (b - dst)) ≡ false = ground arith in
          let first = word_copied dst src m (src + (b - dst)) aligned aligned' in
          rw inside (rest ∙ rw (later, at) (first ∙ rw off refl))
      | inr now ↦
          let tests : within dst 8 b ≡ within dst (8 * suc n) b = ground arith in
          let first = word_copied dst src m b aligned aligned' in
          rest ∙ rw now (first ∙ rw tests refl)
    ]

-- Between aligned blocks of `size` bytes that do not overlap, memcpy copies every byte, the last
-- ones behind the whole words too, and leaves every other byte of the memory.
pub memcpy-byte :
    (dst src size : ℕ) (m : Mem) (b : ℕ)
    → dst % 8 ≡ 0
    → src % 8 ≡ 0
    → size < word
    → Disjoint dst src size
    → load_byte (memcpy dst src size m) b
      ≡ (if within dst size b then load_byte m (src + (b - dst)) else load_byte m b)
unfolding memcpy behind move_bytes
memcpy-byte dst src size m b aligned aligned' small apart =
    let none : head dst ≡ 0 = no_head dst aligned in
    let left : (size + word - 0) % word ≡ size = omega arith in
    let q = size / 8 in
    let m2 = move_words q dst src m in
    let d = dst + q * 8 in
    let s = src + q * 8 in
    let words = λ (x : ℕ). move_words-byte q dst src m x aligned aligned' (ground arith) in
    let tail = move_bytes-byte (size % 8) d s m2 b (ground arith) in
    rw (none, left, add-zero dst, add-zero src)
      (elim (Bool-cases (within d (size % 8) b)) [
        | inl late ↦
            let inside : within dst size b ≡ true = ground arith in
            let at : s + (b - d) ≡ src + (b - dst) = ground arith in
            let off : within dst (8 * q) (src + (b - dst)) ≡ false = ground arith in
            rw inside (tail ∙ rw (late, at) (words (src + (b - dst)) ∙ rw off refl))
        | inr early ↦
            let tests : within dst (8 * q) b ≡ within dst size b = ground arith in
            tail ∙ rw early (words b ∙ rw tests refl)
      ])
