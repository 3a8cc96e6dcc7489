-- ===== src/Tetris/Tests.antt =====
-- The theorems on the game at a board with two full lines, and at a piece in play.
use bikeshed.Prelude.{
  true, ℕ, ◌≡◌, Bool, false, [], ◌∷◌, refl, ◌||◌, ◌==◌, if◌then◌else◌, get_elem?, arith,
}
use bikeshed.Prelude.Int.{pos, ◌+ℤ◌, ◌-ℤ◌}
use bikeshed.Tetris.{
  Game, board_x, board_y, collides, drop_distance, spawn_block, shift_down_blocks, update,
}
use bikeshed.Tetris.Drop.{drop_distance-lands}
use bikeshed.Tetris.Play.{IsPlayable, update-IsPlayable}
use bikeshed.Tetris.Board.{Gameboard, p_i, p_t, p_e, check_collision, block_offsets, clear_lines}
use bikeshed.Tetris.Board.Lines.{kept, line_of, clear_lines-kept}

abbrev two_full : ℕ → Bool
two_full y = (y == 19) || (y == 17)

abbrev filled : Gameboard
filled x y = if (y == 19) || (y == 17) then p_t else if y == x then p_t else p_e

clear_lines-kept_example :
    clear_lines two_full filled 4 18 ≡ line_of filled (get_elem? (kept two_full 20) 1) 4
clear_lines-kept_example = clear_lines-kept two_full filled 4 1 (omega arith)

-- An I piece in the middle of the filled board's third row.
abbrev falling : Game
falling = record {
  gameboard = λ x y. if y == 19 then filled x y else p_e;
  current_piece = p_i;
  next_piece = p_t;
  stage = shift_down_blocks;
  stage_pause_prev = spawn_block;
  quit = false;
  full_lines = two_full;
  current_rotation = 0;
  piece_origin_x = pos 40;
  piece_origin_y = pos 4;
  ticks = 7;
  flash_ticks = 0;
  flash_count = 0;
  ticks_per_drop = 62;
  lines_cleared = 0;
  score = 0;
}

falling-IsPlayable : IsPlayable falling
unfolding ◌+ℤ◌ ◌-ℤ◌ check_collision block_offsets
falling-IsPlayable = record {
  next = refl;
  play = record {
    column = pos 5;
    origin = refl;
    rotation = omega arith;
    piece = refl;
    free = refl;
  };
}

-- The keys `a` and the space bar.
update-IsPlayable_example : IsPlayable (update 12 (97 ∷ 32 ∷ []) falling)
update-IsPlayable_example = update-IsPlayable 12 (97 ∷ 32 ∷ []) falling falling-IsPlayable

drop_distance-lands_example :
    collides falling (board_x (pos 40)) (board_y (pos 4) +ℤ pos (drop_distance 22 falling 1)) 0
    ≡ true
drop_distance-lands_example = drop_distance-lands falling falling-IsPlayable.play
