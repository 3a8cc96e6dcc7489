-- ===== src/Shell/Edit.antt =====
-- programs/src/init/shell.c: read_command against a reference editor on lists.
use bikeshed.Prelude.{
  ℕ, ◌<◌, ◌≤◌, ◌≡◌, refl, ◌==◌, ◌&&◌, ltb, lt→ltb, ltb→lt, arith, Bool-cases, inl, inr,
  if◌then◌else◌, List, [], ◌∷◌, Option, none, some, length,
}
use bikeshed.Shell.{command_size, Shell, store_char, take_key, read_loop, end_command, read_command}

-- The line while it is typed, the last character first.
unfoldable pub edit : ℕ → List ℕ → List ℕ
edit key [] = if key == b'\n' then [] else if key == 8 then [] else key ∷ []
edit key (c ∷ line) = if key == b'\n' then c ∷ line else if key == 8 then line else key ∷ c ∷ line

-- A line ends with a line break that does not stand first, or when it is 255 characters long.
unfoldable pub edit_all : List ℕ → List ℕ → Option (List ℕ × List ℕ)
edit_all [] line = if ltb (length line) 255 then none else some ([], line)
edit_all (key ∷ keys) line =
    let rest = edit_all keys (edit key line) in
    if ltb (length line) 255
    then (if key == b'\n' && ltb 0 (length line) then some (keys, line) else rest)
    else some (key ∷ keys, line)

-- The buffer holds a line that is written backwards.
pub Holds : (ℕ → ℕ) → List ℕ → Type 0
Holds f [] = Unit
Holds f (c ∷ line) = (f (length line) ≡ c) × Holds f line

Holds-above :
    (f : ℕ → ℕ) (n x : ℕ) (line : List ℕ)
    → length line ≤ n
    → Holds f line
    → Holds (store_char f n x) line
unfolding Holds
Holds-above f n x [] h held = tt
Holds-above f n x (c ∷ line) h held = (ground arith, Holds-above f n x line (omega arith) held.1)

-- The buffer and the length of the code, and the reference's line.
record Typed (s : Shell) (line : List ℕ) : Type 0 where
  count : s.command_length ≡ length line
  held : Holds s.command line

take_key-count :
    (key : ℕ) (s : Shell) (line : List ℕ)
    → s.command_length ≡ length line
    → (take_key key s).command_length ≡ length (edit key line)
unfolding take_key edit
take_key-count key s [] h = ground arith
take_key-count key s (c ∷ line) h = ground arith

take_key-Holds :
    (key : ℕ) (s : Shell) (line : List ℕ)
    → s.command_length ≡ length line
    → Holds s.command line
    → Holds (take_key key s).command (edit key line)
unfolding take_key edit Holds
take_key-Holds key s [] h held = elim (Bool-cases (key == b'\n')) [
  | inl e ↦ rw e tt
  | inr e ↦
      rw e (elim (Bool-cases (key == 8)) [ inl e8 ↦ rw e8 tt | inr e8 ↦ rw e8 (ground arith, tt) ])
]
take_key-Holds key s (c ∷ line) h held = elim (Bool-cases (key == b'\n')) [
  | inl e ↦ rw e held
  | inr e ↦ rw e (elim (Bool-cases (key == 8)) [
    | inl e8 ↦ rw (e8, lt→ltb 0 s.command_length (omega (arith, h))) held.1
    | inr e8 ↦ rw e8 (
      ground arith,
      Holds-above s.command s.command_length key (c ∷ line) (omega (arith, h)) held,
    )
  ])
]

length-edit : (key : ℕ) (line : List ℕ) → length line < 255 → length (edit key line) ≤ 255
unfolding edit
length-edit key [] h = ground arith
length-edit key (c ∷ line) h = ground arith

-- What `read_loop` gives, against what the reference gives.
Agrees : Option (List ℕ × Shell) → Option (List ℕ × List ℕ) → Type 0
Agrees none none = Unit
Agrees (some (keys, s)) (some (rest, line)) =
    (keys ≡ rest) × (s.command_length ≡ length line) × Holds s.command line × (length line ≤ 255)
Agrees none (some r) = ⊥
Agrees (some r) none = ⊥

read_loop-Agrees :
    (keys : List ℕ) (s : Shell) (line : List ℕ)
    → s.command_length ≡ length line
    → Holds s.command line
    → length line ≤ 255
    → Agrees (read_loop keys s) (edit_all keys line)
unfolding read_loop edit_all Agrees
read_loop-Agrees [] s line h held small = elim (Bool-cases (ltb (length line) 255)) [
  | inl e ↦ rw (h, e) tt
  | inr e ↦ simp (h, e) (refl, refl, held, small)
]
read_loop-Agrees (key ∷ keys) s line h held small = elim (Bool-cases (ltb (length line) 255)) [
  | inl e ↦ elim (Bool-cases (key == b'\n' && ltb 0 (length line))) [
    | inl k ↦ simp (h, e, k) (refl, refl, held, small)
    | inr k ↦
        simp (h, e, k)
          (read_loop-Agrees keys (take_key key s) (edit key line) (take_key-count key s line h)
            (take_key-Holds key s line h held) (length-edit key line (ltb→lt (length line) 255 e)))
  ]
  | inr e ↦ simp (h, e) (refl, refl, held, small)
]

-- The command that is read, with the zero at its end, inside the buffer.
pub IsRead : Option (List ℕ × Shell) → Option (List ℕ × List ℕ) → Type 0
IsRead none none = Unit
IsRead (some (keys, s)) (some (rest, line)) =
    (keys ≡ rest)
    × Holds s.command line
    × (s.command (length line) ≡ 0)
    × (length line < command_size)
IsRead none (some r) = ⊥
IsRead (some r) none = ⊥

end_command-IsRead :
    (out : Option (List ℕ × Shell)) (ref : Option (List ℕ × List ℕ))
    → Agrees out ref
    → IsRead (elim out [ none ↦ none | some o ↦ some (end_command o) ]) ref
unfolding Agrees IsRead
end_command-IsRead none none a = tt
end_command-IsRead none (some r) a = a
end_command-IsRead (some o) none a = a
end_command-IsRead (some (keys, s)) (some (rest, line)) (k, n, held, small) = (
  k,
  Holds-above s.command s.command_length 0 line (omega (arith, n)) held,
  ground arith,
  omega (arith, small),
)

-- Whatever keys come, `read_command` waits for more exactly if the reference editor does. Otherwise
-- it leaves the same keys, and its buffer of 256 characters holds the line that the reference
-- editor has on a list, with a zero right after it and inside the buffer.
pub read_command-IsRead :
    (keys : List ℕ) (s : Shell) → IsRead (read_command keys s) (edit_all keys [])
unfolding read_command Holds
read_command-IsRead keys s =
    end_command-IsRead _ _ (read_loop-Agrees keys _ [] refl tt (omega arith))
