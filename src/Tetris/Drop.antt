-- ===== src/Tetris/Drop.antt =====
-- programs/src/init/tetris.c: the loop of the drop ends where the piece lands.
use bikeshed.Prelude.{
  ℕ, zero, suc, ◌+◌, ◌<◌, ◌≤◌, ◌≡◌, refl, sym, ap, ◌∙◌, Bool, true, false, arith, Bool-cases, inl,
  inr, List, ◌∷◌,
}
use bikeshed.Prelude.Int.{ℤ, pos, negsuc, ◌+ℤ◌, int_laws}
use bikeshed.Tetris.Board.{
  Piece, p_i, p_j, p_l, p_o, p_s, p_t, p_z, p_e, Gameboard, is_empty, blocked, block_offsets,
  check_collision,
}
use bikeshed.Tetris.{Game, board_x, board_y, collides, drop_distance}
use bikeshed.Tetris.Play.{Fitting, board_x-double}

-- The loop ends at a collision if there is one in reach.
drop_distance-stops :
    (fuel a t : ℕ) (g : Game)
    → let x = board_x g.piece_origin_x in
      let y = board_y g.piece_origin_y in
      collides g x (y +ℤ pos t) g.current_rotation ≡ true
      → a ≤ t
      → t < a + fuel
      → collides g x (y +ℤ pos (drop_distance fuel g a)) g.current_rotation ≡ true
unfolding drop_distance
drop_distance-stops zero a t g hit lo hi = absurd (omega arith)
drop_distance-stops (suc fuel) a t g hit lo hi =
    let x = board_x g.piece_origin_x in
    let y = board_y g.piece_origin_y in
    let r = g.current_rotation in
    elim (Bool-cases (collides g x (y +ℤ pos a) r)) [
      | inl stop ↦ rw stop stop
      | inr go ↦ rw go (
          drop_distance-stops fuel (suc a) t g hit
            (later a t (λ (n : ℕ). collides g x (y +ℤ pos n) r) go hit lo) (omega arith))
    ]
  where
    later : (a t : ℕ) (f : ℕ → Bool) → f a ≡ false → f t ≡ true → a ≤ t → suc a ≤ t
    later a t f e e' h = ground arith

has_blocks :
    (r : ℕ) (p : Piece)
    → r < 4
    → is_empty p ≡ false
    → (cell : ℤ × ℤ) × (cells : List (ℤ × ℤ)) × (block_offsets r p ≡ cell ∷ cells)
unfolding block_offsets
has_blocks zero p_i h e = (_, _, refl)
has_blocks (suc zero) p_i h e = (_, _, refl)
has_blocks (suc (suc zero)) p_i h e = (_, _, refl)
has_blocks (suc (suc (suc zero))) p_i h e = (_, _, refl)
has_blocks zero p_j h e = (_, _, refl)
has_blocks (suc zero) p_j h e = (_, _, refl)
has_blocks (suc (suc zero)) p_j h e = (_, _, refl)
has_blocks (suc (suc (suc zero))) p_j h e = (_, _, refl)
has_blocks zero p_l h e = (_, _, refl)
has_blocks (suc zero) p_l h e = (_, _, refl)
has_blocks (suc (suc zero)) p_l h e = (_, _, refl)
has_blocks (suc (suc (suc zero))) p_l h e = (_, _, refl)
has_blocks zero p_o h e = (_, _, refl)
has_blocks (suc zero) p_o h e = (_, _, refl)
has_blocks (suc (suc zero)) p_o h e = (_, _, refl)
has_blocks (suc (suc (suc zero))) p_o h e = (_, _, refl)
has_blocks zero p_s h e = (_, _, refl)
has_blocks (suc zero) p_s h e = (_, _, refl)
has_blocks (suc (suc zero)) p_s h e = (_, _, refl)
has_blocks (suc (suc (suc zero))) p_s h e = (_, _, refl)
has_blocks zero p_t h e = (_, _, refl)
has_blocks (suc zero) p_t h e = (_, _, refl)
has_blocks (suc (suc zero)) p_t h e = (_, _, refl)
has_blocks (suc (suc (suc zero))) p_t h e = (_, _, refl)
has_blocks zero p_z h e = (_, _, refl)
has_blocks (suc zero) p_z h e = (_, _, refl)
has_blocks (suc (suc zero)) p_z h e = (_, _, refl)
has_blocks (suc (suc (suc zero))) p_z h e = (_, _, refl)
has_blocks r p_e h e = absurd (cc)
has_blocks (suc (suc (suc (suc r)))) p h e = absurd (omega arith)

-- A block that is on the board is off it 20 lines further down.
blocked_below : (b : Gameboard) (x y : ℤ) → blocked b x y ≡ false → blocked b x (y +ℤ pos 20) ≡ true
unfolding ◌+ℤ◌
blocked_below b (pos x) (pos y) h = ground arith
blocked_below b (pos x) (negsuc y) h = absurd (cc)
blocked_below b (negsuc x) y h = absurd (cc)

shifted : (d y : ℤ) → d +ℤ (y +ℤ pos 20) ≡ d +ℤ y +ℤ pos 20
shifted d y = grind int_laws

collides_below :
    (b : Gameboard) (x y : ℤ) (cell : ℤ × ℤ) (cells : List (ℤ × ℤ))
    → check_collision b x y (cell ∷ cells) ≡ false
    → check_collision b x (y +ℤ pos 20) (cell ∷ cells) ≡ true
unfolding check_collision
collides_below b x y (dx, dy) cells h =
    let first : blocked b (dx +ℤ x) (dy +ℤ y) ≡ false = ground arith in
    let below = blocked_below b (dx +ℤ x) (dy +ℤ y) first in rw (shifted dy y, below) refl

-- A falling piece that fits is dropped onto something: one line further down than where the
-- drop puts it, it collides. So the rounds that the loop is given are enough.
pub drop_distance-lands :
    (g : Game)
    → Fitting g
    → collides g
        (board_x g.piece_origin_x)
        (board_y g.piece_origin_y +ℤ pos (drop_distance 22 g 1))
        g.current_rotation
      ≡ true
drop_distance-lands g v =
    let x = board_x g.piece_origin_x in
    let y = board_y g.piece_origin_y in
    let here : x ≡ v.column = ap (λ (t : ℤ). board_x t) v.origin ∙ board_x-double v.column in
    let (cell, cells, e) = has_blocks g.current_rotation g.current_piece v.rotation v.piece in
    let free : check_collision g.gameboard x y (cell ∷ cells) ≡ false =
      ap (λ (c : List (ℤ × ℤ)). check_collision g.gameboard x y c) (sym e)
      ∙ ap (λ (t : ℤ). collides g t y g.current_rotation) here
      ∙ v.free in
    let hit : collides g x (y +ℤ pos 20) g.current_rotation ≡ true =
      ap (λ (c : List (ℤ × ℤ)). check_collision g.gameboard x (y +ℤ pos 20) c) e
      ∙ collides_below g.gameboard x y cell cells free in
    drop_distance-stops 22 1 20 g hit (omega arith) (omega arith)
