-- ===== src/Tetris/Board.antt =====
-- programs/src/init/tetris.c: the board, the pieces' blocks, collisions, and the lines. A place
-- outside the board is never read, since the bounds are tested first; a write there, which
-- `place_current_block_on_board` never does to a piece that fits, changes nothing here.
pub mod Lines
use bikeshed.Prelude.{
  ℕ, zero, suc, ◌+◌, ◌-◌, Bool, true, false, ◌&&◌, ◌||◌, ◌==◌, ltb, leb, not, if◌then◌else◌, List,
  [], ◌∷◌,
}
use bikeshed.Prelude.Int.{ℤ, pos, negsuc, ◌+ℤ◌, ltb_ℤ}

pub data Piece : Type 0 where
  p_i p_j p_l p_o p_s p_t p_z p_e : Piece

-- The conversion of a number to the enum.
abbrev pub piece_of : ℕ → Piece
piece_of zero = p_i
piece_of (suc zero) = p_j
piece_of (suc (suc zero)) = p_l
piece_of (suc (suc (suc zero))) = p_o
piece_of (suc (suc (suc (suc zero)))) = p_s
piece_of (suc (suc (suc (suc (suc zero))))) = p_t
piece_of (suc (suc (suc (suc (suc (suc zero)))))) = p_z
piece_of _ = p_e

abbrev pub is_empty : Piece → Bool
is_empty p_e = true
is_empty _ = false

-- gameboard[x][y].
abbrev pub Gameboard : Type 0
Gameboard = ℕ → ℕ → Piece

-- A line, by columns.
abbrev pub BoardRow : Type 0
BoardRow = ℕ → Piece

-- The four blocks of a piece in a rotation, as offsets.
unfoldable pub block_offsets : ℕ → Piece → List (ℤ × ℤ)
block_offsets zero p_i = (negsuc 0, pos 0) ∷ (pos 0, pos 0) ∷ (pos 1, pos 0) ∷ (pos 2, pos 0) ∷ []
block_offsets zero p_j = (negsuc 0, pos 0) ∷ (pos 0, pos 0) ∷ (pos 1, pos 0) ∷ (pos 1, pos 1) ∷ []
block_offsets zero p_l =
    (negsuc 0, pos 0) ∷ (negsuc 0, pos 1) ∷ (pos 0, pos 0) ∷ (pos 1, pos 0) ∷ []
block_offsets zero p_s = (negsuc 0, pos 1) ∷ (pos 0, pos 1) ∷ (pos 0, pos 0) ∷ (pos 1, pos 0) ∷ []
block_offsets zero p_t = (negsuc 0, pos 0) ∷ (pos 0, pos 0) ∷ (pos 0, pos 1) ∷ (pos 1, pos 0) ∷ []
block_offsets zero p_z = (negsuc 0, pos 0) ∷ (pos 0, pos 0) ∷ (pos 0, pos 1) ∷ (pos 1, pos 1) ∷ []
block_offsets (suc zero) p_i =
    (pos 0, negsuc 0) ∷ (pos 0, pos 0) ∷ (pos 0, pos 1) ∷ (pos 0, pos 2) ∷ []
block_offsets (suc zero) p_j =
    (pos 0, negsuc 0) ∷ (pos 0, pos 0) ∷ (pos 0, pos 1) ∷ (negsuc 0, pos 1) ∷ []
block_offsets (suc zero) p_l =
    (negsuc 0, negsuc 0) ∷ (pos 0, negsuc 0) ∷ (pos 0, pos 0) ∷ (pos 0, pos 1) ∷ []
block_offsets (suc zero) p_s =
    (negsuc 0, negsuc 0) ∷ (negsuc 0, pos 0) ∷ (pos 0, pos 0) ∷ (pos 0, pos 1) ∷ []
block_offsets (suc zero) p_t =
    (pos 0, negsuc 0) ∷ (pos 0, pos 0) ∷ (negsuc 0, pos 0) ∷ (pos 0, pos 1) ∷ []
block_offsets (suc zero) p_z =
    (pos 0, pos 1) ∷ (pos 0, pos 0) ∷ (pos 1, pos 0) ∷ (pos 1, negsuc 0) ∷ []
block_offsets (suc (suc zero)) p_i =
    (negsuc 0, pos 0) ∷ (pos 0, pos 0) ∷ (pos 1, pos 0) ∷ (pos 2, pos 0) ∷ []
block_offsets (suc (suc zero)) p_j =
    (pos 1, pos 0) ∷ (pos 0, pos 0) ∷ (negsuc 0, pos 0) ∷ (negsuc 0, negsuc 0) ∷ []
block_offsets (suc (suc zero)) p_l =
    (pos 1, pos 0) ∷ (pos 1, negsuc 0) ∷ (pos 0, pos 0) ∷ (negsuc 0, pos 0) ∷ []
block_offsets (suc (suc zero)) p_s =
    (negsuc 0, pos 1) ∷ (pos 0, pos 1) ∷ (pos 0, pos 0) ∷ (pos 1, pos 0) ∷ []
block_offsets (suc (suc zero)) p_t =
    (negsuc 0, pos 0) ∷ (pos 0, pos 0) ∷ (pos 0, negsuc 0) ∷ (pos 1, pos 0) ∷ []
block_offsets (suc (suc zero)) p_z =
    (negsuc 0, pos 0) ∷ (pos 0, pos 0) ∷ (pos 0, pos 1) ∷ (pos 1, pos 1) ∷ []
block_offsets (suc (suc (suc zero))) p_i =
    (pos 0, negsuc 0) ∷ (pos 0, pos 0) ∷ (pos 0, pos 1) ∷ (pos 0, pos 2) ∷ []
block_offsets (suc (suc (suc zero))) p_j =
    (pos 0, pos 1) ∷ (pos 0, pos 0) ∷ (pos 0, negsuc 0) ∷ (pos 1, negsuc 0) ∷ []
block_offsets (suc (suc (suc zero))) p_l =
    (pos 1, pos 1) ∷ (pos 0, pos 1) ∷ (pos 0, pos 0) ∷ (pos 0, negsuc 0) ∷ []
block_offsets (suc (suc (suc zero))) p_s =
    (negsuc 0, negsuc 0) ∷ (negsuc 0, pos 0) ∷ (pos 0, pos 0) ∷ (pos 0, pos 1) ∷ []
block_offsets (suc (suc (suc zero))) p_t =
    (pos 0, negsuc 0) ∷ (pos 0, pos 0) ∷ (pos 1, pos 0) ∷ (pos 0, pos 1) ∷ []
block_offsets (suc (suc (suc zero))) p_z =
    (pos 0, pos 1) ∷ (pos 0, pos 0) ∷ (pos 1, pos 0) ∷ (pos 1, negsuc 0) ∷ []
block_offsets _ p_o = (pos 0, pos 0) ∷ (pos 1, pos 0) ∷ (pos 0, pos 1) ∷ (pos 1, pos 1) ∷ []
block_offsets _ _ = []

-- A place is off the board or taken.
abbrev pub blocked : Gameboard → ℤ → ℤ → Bool
blocked b (pos x) (pos y) = leb 10 x || leb 20 y || not (is_empty (b x y))
blocked b _ _ = true

-- The loop over the blocks.
unfoldable pub check_collision : Gameboard → ℤ → ℤ → List (ℤ × ℤ) → Bool
check_collision b ox oy [] = false
check_collision b ox oy ((dx, dy) ∷ cells) =
    blocked b (dx +ℤ ox) (dy +ℤ oy) || check_collision b ox oy cells

abbrev pub put_cell : Gameboard → ℤ → ℤ → Piece → Gameboard
put_cell b (pos x) (pos y) p = λ i j. if (i == x) && (j == y) then p else b i j
put_cell b _ _ p = b

unfoldable pub put_cells : Gameboard → ℤ → ℤ → Piece → List (ℤ × ℤ) → Gameboard
put_cells b ox oy p [] = b
put_cells b ox oy p ((dx, dy) ∷ cells) =
    put_cells (put_cell b (dx +ℤ ox) (dy +ℤ oy) p) ox oy p cells

-- The loop over the columns of a line, from the `n`-th before the last on.
unfoldable pub line_full : Gameboard → ℕ → ℕ → Bool
line_full b zero y = true
line_full b (suc n) y = not (is_empty (b (9 - n) y)) && line_full b n y

abbrev pub line_found : Gameboard → ℕ → Bool
line_found b y = line_full b 10 y

-- How many of the first `n` lines are flagged.
unfoldable pub num_full : (ℕ → Bool) → ℕ → ℕ
num_full full zero = 0
num_full full (suc n) = (if full n then 1 else 0) + num_full full n

-- The inner loop: `c` lines are left above, the full ones at the bottom of them are skipped.
unfoldable pub skip_full : (ℕ → Bool) → ℕ → ℕ
skip_full full zero = 0
skip_full full (suc c) = let rest = skip_full full c in if full c then rest else suc c

abbrev pub set_line : Gameboard → ℕ → BoardRow → Gameboard
set_line b y row = λ i j. if j == y then row i else b i j

-- The last loop: the first `n` lines are emptied.
unfoldable pub empty_lines : ℕ → Gameboard → Gameboard
empty_lines zero b = b
empty_lines (suc n) b = empty_lines n (set_line b n (λ x. p_e))

-- The outer loop on the `n` lines to fill, with `c` lines left to copy (`y + 1` and
-- `copy_line + 1` of the source), and what follows it.
unfoldable pub copy_lines : (ℕ → Bool) → ℕ → ℕ → Gameboard → Gameboard
copy_lines full zero c b = b
copy_lines full (suc n) c b = elim (skip_full full c) [
  | zero ↦ empty_lines (suc n) b
  | suc k ↦ copy_lines full n k (set_line b n (λ x. b x k))
]

unfoldable pub clear_lines : (ℕ → Bool) → Gameboard → Gameboard
clear_lines full b = copy_lines full 20 20 b
