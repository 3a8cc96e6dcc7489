-- ===== src/Keyboard/Ring.antt =====
-- kernel/src/arch/x86_64/keyboard/keyboard.c: the ring of characters as a queue.
use bikeshed.Prelude.{
  Bool-cases, inl, inr, ◌∙◌, length-append, lt→ltb, suc, ℕ, ◌+◌, ◌-◌, ◌<◌, ◌≤◌, ◌≡◌, refl, sym, ap,
  false, ltb, leb, arith, if◌then◌else◌, List, [], ◌∷◌, ◌++◌, length,
}
use mathlib.Core.Path.{subst}
use bikeshed.Keyboard.{Keyboard, keyboard_char_available, keyboard_get_char, store_char, put_char}

-- The place after one, and the place some places on.
abbrev after : ℕ → ℕ
after i = if ltb (i + 1) 256 then i + 1 else 0

abbrev pub slot : ℕ → ℕ → ℕ
slot i n = if ltb (i + n) 256 then i + n else i + n - 256

-- The ring holds the characters from a place on.
unfoldable pub Slots : (ℕ → ℕ) → ℕ → List ℕ → Type 0
Slots f i [] = Unit
Slots f i (c ∷ cs) = (f i ≡ c) × Slots f (after i) cs

pub record IsRing (k : Keyboard) (cs : List ℕ) : Type 0 where
  pub size : k.buffer_size ≡ length cs
  pub fits : length cs ≤ 256
  pub last : k.last_index < 256
  pub next : k.next_index ≡ slot k.last_index (length cs)
  pub slots : Slots k.buffer k.last_index cs

Slots-store :
    (f : ℕ → ℕ) (i n c : ℕ) (cs : List ℕ)
    → i < 256
    → length cs ≤ n
    → n < 256
    → Slots f i cs
    → Slots (store_char f (slot i n) c) i cs
unfolding Slots
Slots-store f i n c [] l h m s = tt
Slots-store f i n c (d ∷ cs) l h m s = (
  ground arith,
  subst (λ j. Slots (store_char f j c) (after i) cs) (sym same)
      (Slots-store f (after i) (n - 1) c cs (ground arith) (omega (arith, h)) (omega (arith, m))
        s.1),
)
  where
    same : slot i n ≡ slot (after i) (n - 1)
    same = ground arith

Slots-append :
    (f : ℕ → ℕ) (i c : ℕ) (cs : List ℕ)
    → i < 256
    → length cs < 256
    → Slots f i cs
    → f (slot i (length cs)) ≡ c
    → Slots f i (cs ++ c ∷ [])
unfolding Slots
Slots-append f i c [] l m s e = (ground arith, tt)
Slots-append f i c (d ∷ cs) l m s e =
    (s.0, Slots-append f (after i) c cs (ground arith) (omega (arith, m)) s.1 (ap f (sym same) ∙ e))
  where
    same : slot i (suc (length cs)) ≡ slot (after i) (length cs)
    same = ground arith

put_char-Slots :
    (c : ℕ) (k : Keyboard) (cs : List ℕ)
    → IsRing k cs
    → length cs < 256
    → Slots (put_char c k).buffer k.last_index (cs ++ c ∷ [])
unfolding put_char
put_char-Slots c k cs r h =
    Slots-append _ k.last_index c cs r.last h
      (subst (λ j. Slots (store_char k.buffer j c) k.last_index cs) (sym r.next)
        (Slots-store k.buffer k.last_index (length cs) c cs r.last (omega arith) h r.slots))
      (ground (arith, r.next))

put_char-last :
    (c : ℕ) (k : Keyboard) (cs : List ℕ)
    → IsRing k cs
    → length cs < 255
    → (put_char c k).last_index ≡ k.last_index
unfolding put_char
put_char-last c k cs r h = ground (arith, r.next, r.last)

-- While fewer than 255 characters wait, a character that is put goes to the end of the queue.
pub put_char-IsRing :
    (c : ℕ) (k : Keyboard) (cs : List ℕ)
    → IsRing k cs
    → length cs < 255
    → IsRing (put_char c k) (cs ++ c ∷ [])
unfolding put_char
put_char-IsRing c k cs r h =
    let same = put_char-last c k cs r h in
    let more = length-append cs (c ∷ []) in
    record {
      size = omega (arith, r.size, more);
      fits = omega (arith, r.size, more);
      last = omega (arith, same, r.last);
      next = ground (arith, same, more, r.next, r.last);
      slots =
          subst (λ i. Slots (put_char c k).buffer i (cs ++ c ∷ [])) (sym same)
            (put_char-Slots c k cs r (omega arith));
    }

pub keyboard_get_char-IsRing :
    (k : Keyboard) (c : ℕ) (cs : List ℕ)
    → IsRing k (c ∷ cs)
    → ((keyboard_get_char k).0 ≡ c) × IsRing (keyboard_get_char k).1 cs
unfolding keyboard_get_char keyboard_char_available Slots
keyboard_get_char-IsRing k c cs r = rw (lt→ltb 0 k.buffer_size (omega (arith, r.size))) (
  r.slots.0,
  record {
    size = omega (arith, r.size);
    fits = omega (arith, r.fits);
    last = ground (arith, r.last);
    next = ground (arith, r.next, r.last);
    slots = subst (λ i. Slots k.buffer i cs) (step_on k.last_index) r.slots.1;
  },
)
  where
    step_on : (i : ℕ) → after i ≡ (if leb 256 (i + 1) then 0 else i + 1)
    step_on i = ground arith

-- When 255 characters wait and the oldest stands at the start of the buffer, putting one more moves
-- the oldest behind all the others: it is the last that will be read, and its place is the one that
-- the next character overwrites. All 256 are counted.
put_char-overrun :
    (c d : ℕ) (k : Keyboard) (cs : List ℕ)
    → IsRing k (d ∷ cs)
    → length cs ≡ 254
    → k.last_index ≡ 0
    → Slots (put_char c k).buffer (put_char c k).last_index ((cs ++ c ∷ []) ++ d ∷ [])
      × ((put_char c k).buffer_size ≡ length ((cs ++ c ∷ []) ++ d ∷ []))
      × ((put_char c k).next_index ≡ 0)
unfolding put_char Slots
put_char-overrun c d k cs r h z =
    let buf = store_char k.buffer 255 c in
    let end : k.next_index ≡ 255 = ground (arith, r.next) in
    let rest : Slots k.buffer 1 cs = subst (λ i. Slots k.buffer (after i) cs) z r.slots.1 in
    let first : k.buffer 0 ≡ d = subst (λ i. k.buffer i ≡ d) z r.slots.0 in
    let kept : Slots buf 1 cs =
      Slots-store k.buffer 1 254 c cs (omega arith) (omega arith) (omega arith) rest in
    let len : length (cs ++ c ∷ []) ≡ 255 = omega (arith, length-append cs (c ∷ [])) in
    let full : length ((cs ++ c ∷ []) ++ d ∷ []) ≡ 256 =
      omega (arith, length-append (cs ++ c ∷ []) (d ∷ [])) in
    let newest : Slots buf 1 (cs ++ c ∷ []) =
      Slots-append buf 1 c cs (omega arith) (omega arith) kept (rw h refl) in
    rw (z, end)
      (
        Slots-append buf 1 d (cs ++ c ∷ []) (omega arith) (omega (arith, len)) newest
            (rw len first),
        omega (arith, r.size, full),
        refl,
      )

pub keyboard_get_char-shift : (k : Keyboard) → (keyboard_get_char k).1.shiftdown ≡ k.shiftdown
unfolding keyboard_get_char
keyboard_get_char-shift k = elim (Bool-cases (keyboard_char_available k)) [
  | inl e ↦ rw e refl
  | inr e ↦ rw e refl
]

-- When nothing waits, zero is read.
pub keyboard_get_char-empty : (k : Keyboard) → IsRing k [] → keyboard_get_char k ≡ (0, k)
unfolding keyboard_get_char keyboard_char_available
keyboard_get_char-empty k r = rw (same) refl
  where
    same : ltb 0 k.buffer_size ≡ false
    same = ground (arith, r.size)
