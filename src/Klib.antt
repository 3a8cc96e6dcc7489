-- ===== src/Klib.antt =====
-- kernel/src/kernel/klib.c on aligned blocks of whole words, which is how the page tables use it.
pub mod Bytes
pub mod Fill
pub mod Copy
mod Tests
use bikeshed.Prelude.{ℕ, zero, suc, ◌+◌, ◌*◌, ◌/◌, ◌<◌, ◌≤◌, ◌≡◌, refl, ap, ◌∙◌, ◌⊎◌, inl, arith}
use bikeshed.Machine.{Mem, store}

-- The loop over the words.
unfoldable pub clear_words : ℕ → ℕ → Mem → Mem
clear_words zero p m = m
clear_words (suc n) p m = clear_words n (p + 8) (store m p 0)

unfoldable pub memclr : ℕ → ℕ → Mem → Mem
memclr ptr size m = clear_words (size / 8) ptr m

unfoldable pub copy_words : ℕ → ℕ → ℕ → Mem → Mem
copy_words zero dst src m = m
copy_words (suc n) dst src m = copy_words n (dst + 8) (src + 8) (store m dst (m src))

unfoldable pub memcpy : ℕ → ℕ → ℕ → Mem → Mem
memcpy dst src size m = copy_words (size / 8) dst src m

pub clear_words-frame :
    (n p : ℕ) (m : Mem) (a : ℕ) → (a < p) ⊎ (p + 8 * n ≤ a) → clear_words n p m a ≡ m a
unfolding clear_words
clear_words-frame zero p m a h = refl
clear_words-frame (suc n) p m a h =
    ground (arith, clear_words-frame n (p + 8) (store m p 0) a (ground arith))

clear_words-zero : (n p : ℕ) (m : Mem) (i : ℕ) → i < n → clear_words n p m (p + 8 * i) ≡ 0
unfolding clear_words
clear_words-zero zero p m i h = absurd (omega arith)
clear_words-zero (suc n) p m zero h =
    ground (arith, clear_words-frame n (p + 8) (store m p 0) (p + 0) (inl (omega arith)))
clear_words-zero (suc n) p m (suc i) h =
    ap (clear_words n (p + 8) (store m p 0)) (omega arith)
    ∙ clear_words-zero n (p + 8) (store m p 0) i (omega arith)

-- `memclr` of an aligned block sets its words to 0 and leaves every other word.
pub memclr-zero :
    (ptr size : ℕ) (m : Mem)
    → ((i : ℕ) → 8 * i + 8 ≤ size → memclr ptr size m (ptr + 8 * i) ≡ 0)
      × ((a : ℕ) → (a < ptr) ⊎ (ptr + size ≤ a) → memclr ptr size m a ≡ m a)
unfolding memclr
memclr-zero ptr size m = (
  λ i h. clear_words-zero (size / 8) ptr m i (omega arith),
  λ a h. clear_words-frame (size / 8) ptr m a (ground arith),
)

copy_words-frame :
    (n dst src : ℕ) (m : Mem) (a : ℕ)
    → (a < dst) ⊎ (dst + 8 * n ≤ a)
    → copy_words n dst src m a ≡ m a
unfolding copy_words
copy_words-frame zero dst src m a h = refl
copy_words-frame (suc n) dst src m a h =
    ground (arith, copy_words-frame n (dst + 8) (src + 8) (store m dst (m src)) a (ground arith))

copy_words-same :
    (n dst src : ℕ) (m : Mem) (i : ℕ)
    → (src + 8 * n ≤ dst) ⊎ (dst + 8 * n ≤ src)
    → i < n
    → copy_words n dst src m (dst + 8 * i) ≡ m (src + 8 * i)
unfolding copy_words
copy_words-same zero dst src m i apart h = absurd (omega arith)
copy_words-same (suc n) dst src m zero apart h =
    copy_words-frame n (dst + 8) (src + 8) (store m dst (m src)) (dst + 8 * 0) (inl (omega arith))
    ∙ ground arith
copy_words-same (suc n) dst src m (suc i) apart h =
    let m' = store m dst (m src) in
    let there : dst + 8 * suc i ≡ dst + 8 + 8 * i = omega arith in
    let here : src + 8 + 8 * i ≡ src + 8 * suc i = omega arith in
    ap (copy_words n (dst + 8) (src + 8) m') there
    ∙ copy_words-same n (dst + 8) (src + 8) m' i (ground arith) (omega arith)
    ∙ ap m' here
    ∙ ground arith

-- `memcpy` between aligned blocks that do not overlap makes the target equal to the source and
-- leaves every word outside the target, the source's included.
memcpy-same :
    (dst src size : ℕ) (m : Mem)
    → (src + size ≤ dst) ⊎ (dst + size ≤ src)
    → ((i : ℕ) → 8 * i + 8 ≤ size → memcpy dst src size m (dst + 8 * i) ≡ m (src + 8 * i))
      × ((a : ℕ) → (a < dst) ⊎ (dst + size ≤ a) → memcpy dst src size m a ≡ m a)
unfolding memcpy
memcpy-same dst src size m apart = (
  λ i h. copy_words-same (size / 8) dst src m i (ground arith) (omega arith),
  λ a h. copy_words-frame (size / 8) dst src m a (ground arith),
)
