-- ===== src/Keyboard/Events.antt =====
-- kernel/src/arch/x86_64/keyboard/keyboard.c: interrupts and reads in any order, against a queue.
use bikeshed.Prelude.{
  ℕ, ◌<◌, ◌/◌, ◌%◌, ◌≡◌, refl, sym, ap, ap₂, true, false, ◌==◌, ==_iff, ◌||◌, ltb, arith,
  Bool-cases, ◌⊎◌, inl, inr, if◌then◌else◌, List, [], ◌∷◌, ◌++◌, length, get_or, Option, none, some,
}
use mathlib.Core.Path.{subst}
use bikeshed.Keyboard.{
  scan_code_table, check_scan_code, key_code, key_down, turn_page, put_char, Keyboard,
  keyboard_get_char,
}
use bikeshed.Keyboard.Ring.{
  IsRing, put_char-IsRing, keyboard_get_char-IsRing, keyboard_get_char-empty,
  keyboard_get_char-shift,
}

-- What happens at the keyboard: a scan code arrives, or the kernel reads a character.
pub data Event : Type 0 where
  scan : ℕ → Event
  read : Event

unfoldable pub run : List Event → Keyboard → List ℕ
run [] k = []
run (scan code ∷ es) k = run es (check_scan_code code k)
run (read ∷ es) k = (keyboard_get_char k).0 ∷ run es (keyboard_get_char k).1

-- The reference: the character of a key, the shift keys, and a queue that takes 255 characters.
unfoldable pub key_char : ℕ → ℕ → ℕ
key_char shift code = if code / 128 % 2 == 0 then get_or (scan_code_table shift) code 0 else 0

unfoldable pub shift_after : ℕ → ℕ → ℕ
shift_after code shift =
    if code == 0x2a || code == 0x36 then 1 else if code == 0xaa || code == 0xb6 then 0 else shift

unfoldable pub appended : ℕ → List ℕ → Option (List ℕ)
appended c cs =
    if c == 0 then some cs else if ltb (length cs) 255 then some (cs ++ c ∷ []) else none

abbrev pub deliver : ℕ → Option (List ℕ) → Option (List ℕ)
deliver c none = none
deliver c (some out) = some (c ∷ out)

abbrev pub then_run : Option (List ℕ) → (List ℕ → Option (List ℕ)) → Option (List ℕ)
then_run none f = none
then_run (some ds) f = f ds

unfoldable pub run_queue : List Event → ℕ → List ℕ → Option (List ℕ)
run_queue [] shift cs = some []
run_queue (read ∷ es) shift [] = deliver 0 (run_queue es shift [])
run_queue (read ∷ es) shift (c ∷ cs) = deliver c (run_queue es shift cs)
run_queue (scan code ∷ es) shift cs =
    then_run (appended (key_char shift code) cs) (λ ds. run_queue es (shift_after code shift) ds)

-- The page that is shown does not touch the characters.
turn_page-IsRing :
    (c : ℕ) (k : Keyboard) (cs : List ℕ)
    → IsRing k cs
    → IsRing (turn_page c k) cs × ((turn_page c k).shiftdown ≡ k.shiftdown)
unfolding turn_page
turn_page-IsRing c k cs r = elim (Bool-cases (c == b'1')) [
  | inl e ↦ rw e (same _ r, refl)
  | inr e ↦
      rw e (elim (Bool-cases (c == b'2')) [
        | inl e2 ↦ rw e2 (same _ r, refl)
        | inr e2 ↦ rw e2 (r, refl)
      ])
]
  where
    same : (s : _) → IsRing k cs → IsRing (record k { console = s }) cs
    same s r = record {
      size = r.size;
      fits = r.fits;
      last = r.last;
      next = r.next;
      slots = r.slots;
    }

appended-cases :
    (c : ℕ) (cs ds : List ℕ)
    → appended c cs ≡ some ds
    → (((c == 0) ≡ true) × (cs ≡ ds))
      ⊎ (((c == 0) ≡ false) × (length cs < 255) × ((cs ++ c ∷ []) ≡ ds))
unfolding appended
appended-cases c cs ds a = ground arith

-- The ring and the shift keys together.
IsKeyboard : ℕ → List ℕ → Keyboard → Type 0
IsKeyboard shift cs k = IsRing k cs × (k.shiftdown ≡ shift)

take_char-IsKeyboard :
    (c : ℕ) (k : Keyboard) (cs ds : List ℕ)
    → IsRing k cs
    → appended c cs ≡ some ds
    → IsKeyboard k.shiftdown ds (if c == 0 then k else turn_page c (put_char c k))
unfolding IsKeyboard put_char
take_char-IsKeyboard c k cs ds r a = elim (appended-cases c cs ds a) [
  | inl (e, same) ↦ rw e (subst (λ xs. IsRing k xs) same r, refl)
  | inr (e, few, more) ↦ rw e (
      turn_page-IsRing c (put_char c k) ds
        (subst (λ xs. IsRing (put_char c k) xs) more (put_char-IsRing c k cs r few)))
]

key_code-IsKeyboard :
    (code : ℕ) (k : Keyboard) (cs ds : List ℕ)
    → IsRing k cs
    → appended (key_char k.shiftdown code) cs ≡ some ds
    → IsKeyboard k.shiftdown ds (key_code code k)
unfolding key_code key_down key_char IsKeyboard
key_code-IsKeyboard code k cs ds r a = elim (Bool-cases (code / 128 % 2 == 0)) [
  | inl e ↦ rw e (
      take_char-IsKeyboard (get_or (scan_code_table k.shiftdown) code 0) k cs ds r
        (subst (λ c. appended c cs ≡ some ds) (rw e refl) a))
  | inr e ↦
      rw e (take_char-IsKeyboard 0 k cs ds r (subst (λ c. appended c cs ≡ some ds) (rw e refl) a))
]

-- The codes of the shift and control keys have no character.
no_char :
    (shift : ℕ)
    → (get_or (scan_code_table shift) 0x2a 0 ≡ 0)
      × (get_or (scan_code_table shift) 0x36 0 ≡ 0)
      × (get_or (scan_code_table shift) 0x1d 0 ≡ 0)
no_char shift = elim (Bool-cases (shift == 0)) [
  | inl e ↦ rw e (refl, refl, refl)
  | inr e ↦ rw e (refl, refl, refl)
]

key_char-press : (shift code : ℕ) → (code == 0x2a || code == 0x36) ≡ true → key_char shift code ≡ 0
unfolding key_char
key_char-press shift code h =
    let which : (code ≡ 0x2a) ⊎ (code ≡ 0x36) = ground arith in
    elim which [ inl e ↦ rw (e) ((no_char shift).0) | inr e ↦ rw (e) ((no_char shift).1) ]

key_char-release :
    (shift code : ℕ) → (code == 0xaa || code == 0xb6) ≡ true → key_char shift code ≡ 0
unfolding key_char
key_char-release shift code h =
    let which : (code ≡ 0xaa) ⊎ (code ≡ 0xb6) = ground arith in
    elim which [ inl e ↦ rw e refl | inr e ↦ rw e refl ]

key_char-control : (shift code : ℕ) → (code == 0x1d) ≡ true → key_char shift code ≡ 0
unfolding key_char
key_char-control shift code h = rw ((==_iff code 0x1d).0 h) ((no_char shift).2)

-- The ring does not depend on the keys that are held.
held-IsRing :
    (shift ctrl : ℕ) (k : Keyboard) (cs : List ℕ)
    → IsRing k cs
    → IsRing (record k { shiftdown = shift; ctrl_mask = ctrl }) cs
held-IsRing shift ctrl k cs r = record {
  size = r.size;
  fits = r.fits;
  last = r.last;
  next = r.next;
  slots = r.slots;
}

-- A code without a character leaves the queue.
quiet-IsRing :
    (c : ℕ) (k : Keyboard) (cs ds : List ℕ)
    → IsRing k cs
    → c ≡ 0
    → appended c cs ≡ some ds
    → IsRing k ds
unfolding IsKeyboard
quiet-IsRing c k cs ds r z a =
    (take_char-IsKeyboard 0 k cs ds r (subst (λ x. appended x cs ≡ some ds) z a)).0

check_scan_code-IsKeyboard :
    (code : ℕ) (k : Keyboard) (cs ds : List ℕ)
    → IsRing k cs
    → appended (key_char k.shiftdown code) cs ≡ some ds
    → IsKeyboard (shift_after code k.shiftdown) ds (check_scan_code code k)
unfolding check_scan_code shift_after IsKeyboard
check_scan_code-IsKeyboard code k cs ds r a = elim (Bool-cases (code == 0x2a || code == 0x36)) [
  | inl e ↦ rw e (held-IsRing 1 _ k ds (quiet-IsRing _ k cs ds r (key_char-press _ code e) a), refl)
  | inr e ↦ rw e (elim (Bool-cases (code == 0xaa || code == 0xb6)) [
    | inl e' ↦
        rw e' (held-IsRing 0 _ k ds (quiet-IsRing _ k cs ds r (key_char-release _ code e') a), refl)
    | inr e' ↦ rw e' (elim (Bool-cases (code == 0x1d)) [
      | inl c ↦
          rw c
            (held-IsRing _ 0x1f k ds (quiet-IsRing _ k cs ds r (key_char-control _ code c) a), refl)
      | inr c ↦ rw c (elim (Bool-cases (code == 0x9d)) [
        | inl d ↦ rw d (
            key_code-IsKeyboard code (record k { ctrl_mask = 0xff }) cs ds
              (held-IsRing _ 0xff k cs r) a)
        | inr d ↦ rw d (key_code-IsKeyboard code k cs ds r a)
      ])
    ])
  ])
]

deliver-some :
    (c : ℕ) (o : Option (List ℕ)) (out : List ℕ)
    → deliver c o ≡ some out
    → (xs : List ℕ) × (o ≡ some xs) × ((c ∷ xs) ≡ out)
deliver-some c none out h = absurd (cc)
deliver-some c (some xs) out h = (xs, refl, cc)

then_run-some :
    (o : Option (List ℕ)) (f : List ℕ → Option (List ℕ)) (out : List ℕ)
    → then_run o f ≡ some out
    → (ds : List ℕ) × (o ≡ some ds) × (f ds ≡ some out)
then_run-some none f out h = absurd (cc)
then_run-some (some ds) f out h = (ds, refl, h)

-- For scan codes and reads in any order, from a ring that holds a queue on, and as long as no
-- character arrives while 255 wait, the kernel reads what it would read from a queue: each key's
-- character once, in order, as the shift keys were when the key went down, and zero when nothing
-- waits.
pub run-run_queue :
    (es : List Event) (k : Keyboard) (cs out : List ℕ)
    → IsRing k cs
    → run_queue es k.shiftdown cs ≡ some out
    → run es k ≡ out
unfolding run run_queue IsKeyboard
run-run_queue [] k cs out r h = ground arith
run-run_queue (read ∷ es) k [] out r h =
    let (xs, e, same) = deliver-some 0 (run_queue es k.shiftdown []) out h in
    rw⁻¹ same
      (rw (keyboard_get_char-empty k r) (ap (λ rest. 0 ∷ rest) (run-run_queue es k [] xs r e)))
run-run_queue (read ∷ es) k (c ∷ cs) out r h =
    let (xs, e, same) = deliver-some c (run_queue es k.shiftdown cs) out h in
    let got = keyboard_get_char-IsRing k c cs r in
    rw⁻¹ same (
      ap₂ (λ x rest. x ∷ rest) got.0
        (run-run_queue es (keyboard_get_char k).1 cs xs got.1
          (subst (λ x. run_queue es x cs ≡ some xs) (sym (keyboard_get_char-shift k)) e)))
run-run_queue (scan code ∷ es) k cs out r h =
    let (ds, a, e) = then_run-some (appended (key_char k.shiftdown code) cs) _ out h in
    let (r', sh) = check_scan_code-IsKeyboard code k cs ds r a in
    run-run_queue es (check_scan_code code k) ds out r'
      (subst (λ x. run_queue es x ds ≡ some out) (sym sh) e)
