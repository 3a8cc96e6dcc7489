-- ===== src/Tetris/Board/Lines.antt =====
-- programs/src/init/tetris.c: clear_lines against the list of the lines that are kept.
use bikeshed.Prelude.{
  ℕ, zero, suc, ◌-◌, ◌<◌, ◌≤◌, ◌≡◌, refl, ◌∙◌, ap, ◌⊎◌, inl, inr, Bool, ltb, if◌then◌else◌, List,
  [], ◌∷◌, Option, none, some, get_elem?, arith, Bool-cases,
}
use bikeshed.Tetris.Board.{
  p_e, Piece, Gameboard, skip_full, set_line, empty_lines, copy_lines, clear_lines,
}

-- The lines among the first `c` that are not full, from the bottom up.
unfoldable pub kept : (ℕ → Bool) → ℕ → List ℕ
kept full zero = []
kept full (suc c) = if full c then kept full c else c ∷ kept full c

-- A line of the board, or an empty one.
abbrev pub line_of : Gameboard → Option ℕ → ℕ → Piece
line_of b (some k) x = b x k
line_of b none x = p_e

skip_full-kept :
    (full : ℕ → Bool) (c : ℕ)
    → (skip_full full c ≡ 0) × (kept full c ≡ [])
      ⊎ ((k : ℕ) × (skip_full full c ≡ suc k) × (kept full c ≡ k ∷ kept full k) × (k < c))
unfolding skip_full kept
skip_full-kept full zero = inl (refl, refl)
skip_full-kept full (suc c) = elim (Bool-cases (full c)) [
  | inl is_full ↦ rw is_full (elim (skip_full-kept full c) [
    | inl none_left ↦ inl none_left
    | inr (k, e, e', h) ↦ inr (k, e, e', omega arith)
  ])
  | inr open_line ↦ rw open_line (inr (c, refl, refl, omega arith))
]

empty_lines_lem :
    (n : ℕ) (b : Gameboard) (x y : ℕ) → empty_lines n b x y ≡ (if ltb y n then p_e else b x y)
unfolding empty_lines
empty_lines_lem zero b x y = ground arith
empty_lines_lem (suc n) b x y = empty_lines_lem n (set_line b n (λ i. p_e)) x y ∙ ground arith

-- A line that is set at or below the kept ones changes none of them.
line_of-set :
    (full : ℕ → Bool) (k n j x : ℕ) (b : Gameboard) (row : ℕ → Piece)
    → k ≤ n
    → line_of (set_line b n row) (get_elem? (kept full k) j) x
      ≡ line_of b (get_elem? (kept full k) j) x
unfolding kept
line_of-set full zero n j x b row h = refl
line_of-set full (suc k) n zero x b row h = elim (Bool-cases (full k)) [
  | inl is_full ↦ rw is_full (line_of-set full k n zero x b row (omega arith))
  | inr open_line ↦ rw open_line (ground arith)
]
line_of-set full (suc k) n (suc j) x b row h = elim (Bool-cases (full k)) [
  | inl is_full ↦ rw is_full (line_of-set full k n (suc j) x b row (omega arith))
  | inr open_line ↦ rw open_line (line_of-set full k n j x b row (omega arith))
]

-- The lines below those that are filled stay.
copy_lines-below :
    (full : ℕ → Bool) (n c : ℕ) (b : Gameboard) (x y : ℕ)
    → n ≤ y
    → copy_lines full n c b x y ≡ b x y
unfolding copy_lines
copy_lines-below full zero c b x y h = refl
copy_lines-below full (suc n) c b x y h = elim (skip_full-kept full c) [
  | inl (e, e') ↦ rw (e, copy_lines) (empty_lines_lem (suc n) b x y ∙ ground arith)
  | inr (k, e, e', below) ↦
      rw (e, copy_lines)
        (copy_lines-below full n k (set_line b n (λ i. b i k)) x y (omega arith) ∙ ground arith)
]

copy_lines-kept :
    (full : ℕ → Bool) (n c : ℕ) (b : Gameboard) (x j : ℕ)
    → c ≤ n
    → j < n
    → copy_lines full n c b x (n - 1 - j) ≡ line_of b (get_elem? (kept full c) j) x
unfolding copy_lines
copy_lines-kept full zero c b x j le h = absurd (omega arith)
copy_lines-kept full (suc n) c b x zero le h = elim (skip_full-kept full c) [
  | inl (e, e') ↦
      rw (e, e', copy_lines) (empty_lines_lem (suc n) b x (suc n - 1 - 0) ∙ ground arith)
  | inr (k, e, e', below) ↦
      rw (e, e', copy_lines)
        (copy_lines-below full n k (set_line b n (λ i. b i k)) x (suc n - 1 - 0) (omega arith)
          ∙ ground arith)
]
copy_lines-kept full (suc n) c b x (suc j) le h = elim (skip_full-kept full c) [
  | inl (e, e') ↦
      rw (e, e', copy_lines) (empty_lines_lem (suc n) b x (suc n - 1 - suc j) ∙ ground arith)
  | inr (k, e, e', below) ↦
      let b' = set_line b n (λ i. b i k) in
      let there : suc n - 1 - suc j ≡ n - 1 - j = omega arith in
      rw (e, e', copy_lines)
        (ap (copy_lines full n k b' x) there
          ∙ copy_lines-kept full n k b' x j (omega arith) (omega arith)
          ∙ line_of-set full k n j x b (λ i. b i k) (omega arith))
]

-- `clear_lines` moves the lines that are not flagged to the bottom, in their order, and leaves
-- the lines above them empty: the `j`-th line from the bottom is the `j`-th kept line of the old
-- board, or empty when fewer are kept.
pub clear_lines-kept :
    (full : ℕ → Bool) (b : Gameboard) (x j : ℕ)
    → j < 20
    → clear_lines full b x (19 - j) ≡ line_of b (get_elem? (kept full 20) j) x
unfolding clear_lines
clear_lines-kept full b x j h = copy_lines-kept full 20 20 b x j (omega arith) h
