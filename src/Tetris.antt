-- ===== src/Tetris.antt =====
-- programs/src/init/tetris.c: the state of the game and one tick of it. Drawing, and with it the
-- colours, is left out; keys are the bytes that `get_key` returns until none is left; `random`
-- is what `rand` returns. The counters `flash_ticks`, `flash_count` and `ticks` are uint32_t and
-- reset long before they could wrap.
pub mod Board
pub mod Play
pub mod Drop
mod Tests
use bikeshed.Prelude.{
  ℕ, zero, suc, ◌+◌, ◌-◌, ◌*◌, ◌%◌, ◌^◌, Bool, true, false, ◌&&◌, ◌||◌, ◌==◌, ltb, leb, not,
  if◌then◌else◌, List, [], ◌∷◌,
}
use bikeshed.Prelude.Int.{ℤ, pos, negsuc, ◌+ℤ◌, ◌-ℤ◌, ltb_ℤ, div_ℤ}
use bikeshed.Tetris.Board.{
  Piece, p_i, p_e, piece_of, is_empty, Gameboard, block_offsets, check_collision, put_cells,
  line_found, num_full, clear_lines,
}

pub data Stage : Type 0 where
  spawn_block shift_down_blocks line_check line_check_flash pause game_over : Stage

pub record Keys : Type 0 where
  pub quit_pressed : Bool
  pub rotate_pressed : Bool
  pub left_pressed : Bool
  pub right_pressed : Bool
  pub drop_pressed : Bool
  pub pause_pressed : Bool
  pub down_pressed : Bool

pub record Game : Type 0 where
  pub gameboard : Gameboard
  pub current_piece : Piece
  pub next_piece : Piece
  pub stage : Stage
  pub stage_pause_prev : Stage
  pub quit : Bool
  pub full_lines : ℕ → Bool
  pub current_rotation : ℕ
  pub piece_origin_x : ℤ
  pub piece_origin_y : ℤ
  pub ticks : ℕ
  pub flash_ticks : ℕ
  pub flash_count : ℕ
  pub ticks_per_drop : ℕ
  pub lines_cleared : ℕ
  pub score : ℕ

-- SCREEN_X_TO_BOARD_X and SCREEN_Y_TO_BOARD_Y.
abbrev pub board_x : ℤ → ℤ
board_x x = div_ℤ (x -ℤ pos 30) 2

abbrev pub board_y : ℤ → ℤ
board_y y = y -ℤ pos 2

unfoldable pub reset_tetris : Game → Game
reset_tetris g = record g {
  quit = false;
  stage = spawn_block;
  stage_pause_prev = spawn_block;
  current_piece = p_i;
  current_rotation = 0;
  next_piece = p_i;
  piece_origin_x = pos 0;
  piece_origin_y = pos 0;
  ticks = 0;
  flash_ticks = 0;
  flash_count = 0;
  ticks_per_drop = 62;
  lines_cleared = 0;
  score = 0;
}

-- `next_piece = rand() % NUM_PIECES`.
unfoldable pub choose_piece : ℕ → Game → Game
choose_piece random g = record g { next_piece = piece_of (random % 7) }

-- The piece at a place and rotation of the board collides.
abbrev pub collides : Game → ℤ → ℤ → ℕ → Bool
collides g x y rotation = check_collision g.gameboard x y (block_offsets rotation g.current_piece)

unfoldable pub shift_down : Game → Bool × Game
shift_down g =
    if collides g (board_x g.piece_origin_x) (board_y g.piece_origin_y +ℤ pos 1) g.current_rotation
    then (true, g)
    else (false, record g { piece_origin_y = g.piece_origin_y +ℤ pos 1 })

unfoldable pub update_score : Game → Game
update_score g =
    let num_lines = num_full g.full_lines 20 in
    let lines = (g.lines_cleared + num_lines) % 2 ^ 64 in
    let faster = (g.ticks_per_drop + 2 ^ 32 - 1) % 2 ^ 32 in
    record g {
      lines_cleared = lines;
      ticks_per_drop =
          if leb 10 lines then (if ltb faster 10 then 10 else faster) else g.ticks_per_drop;
      score = (g.score + num_lines * 100) % 2 ^ 64;
    }

abbrev pub no_keys : Keys
no_keys = record {
  quit_pressed = false;
  rotate_pressed = false;
  left_pressed = false;
  right_pressed = false;
  drop_pressed = false;
  pause_pressed = false;
  down_pressed = false;
}

-- The switch on one key.
unfoldable pub press : ℕ → Keys → Keys
press key k =
    if key == 113 || key == 81
    then record k { quit_pressed = true }
    else if key == 97 || key == 65
    then record k { left_pressed = true }
    else if key == 100 || key == 68
    then record k { right_pressed = true }
    else if key == 115 || key == 83
    then record k { down_pressed = true }
    else if key == 112 || key == 80
    then record k { pause_pressed = true }
    else if key == 119 || key == 87
    then record k { rotate_pressed = true }
    else if key == 32
    then record k { drop_pressed = true }
    else k

unfoldable pub press_all : List ℕ → Keys → Keys
press_all [] k = k
press_all (key ∷ keys) k = press_all keys (press key k)

unfoldable pub update_keys : List ℕ → Keys
update_keys keys = press_all keys no_keys

-- The loop of the drop: how far the piece can go, from `amount` on. 20 rounds are enough, since
-- the board has 20 rows.
unfoldable pub drop_distance : ℕ → Game → ℕ → ℕ
drop_distance zero g amount = amount
drop_distance (suc fuel) g amount =
    let rest = drop_distance fuel g (suc amount) in
    if collides g (board_x g.piece_origin_x) (board_y g.piece_origin_y +ℤ pos amount)
      g.current_rotation
    then amount
    else rest

-- True if the piece was dropped.
unfoldable pub handle_actions : Keys → Game → Bool × Game
handle_actions k g =
    let x = board_x g.piece_origin_x in
    let y = board_y g.piece_origin_y in
    let turned = (g.current_rotation + 1) % 4 in
    if k.left_pressed && not (collides g (x -ℤ pos 1) y g.current_rotation)
    then (false, record g { piece_origin_x = g.piece_origin_x -ℤ pos 2 })
    else if k.right_pressed && not (collides g (x +ℤ pos 1) y g.current_rotation)
    then (false, record g { piece_origin_x = g.piece_origin_x +ℤ pos 2 })
    else if k.down_pressed && not (collides g x (y +ℤ pos 1) g.current_rotation)
    then (false, record g { piece_origin_y = g.piece_origin_y +ℤ pos 1 })
    else if k.rotate_pressed && not (collides g x y turned)
    then (false, record g { current_rotation = turned })
    else if k.drop_pressed
    then (true, record g { piece_origin_y = g.piece_origin_y +ℤ pos (drop_distance 22 g 1 - 1) })
    else (false, g)

unfoldable pub place_current_block_on_board : Game → Game
place_current_block_on_board g = record g {
  gameboard =
      put_cells g.gameboard (board_x g.piece_origin_x) (board_y g.piece_origin_y) g.current_piece
        (block_offsets g.current_rotation g.current_piece);
}

-- A line found, and the flags of the lines.
unfoldable pub check_for_lines : Game → Bool × Game
check_for_lines g = (
  ltb 0 (num_full (line_found g.gameboard) 20),
  record g { full_lines = λ y. line_found g.gameboard y },
)

-- What the pause key does in a stage.
unfoldable pub toggled : Stage → Game → Game
toggled pause g = record g { stage = g.stage_pause_prev }
toggled _ g = record g { stage_pause_prev = g.stage; stage = pause }

unfoldable pub toggle_pause : Keys → Game → Game
toggle_pause k g = if k.pause_pressed then toggled g.stage g else g

-- The cases of the switch of `update`.
unfoldable pub spawn : ℕ → Game → Game
spawn random g =
    let g1 = choose_piece random (record g { current_piece = g.next_piece }) in
    let g2 = record g1 { piece_origin_x = pos 40; piece_origin_y = pos 2; current_rotation = 0 } in
    if collides g2 (board_x g2.piece_origin_x) (board_y g2.piece_origin_y) g2.current_rotation
    then record g2 { stage = game_over }
    else record g2 { stage = shift_down_blocks; ticks = 0 }

abbrev pub landed : Game → Game
landed g = record (place_current_block_on_board g) { stage = line_check }

unfoldable pub act : Keys → Game → Game
act k g = let (dropped, g1) = handle_actions k g in if dropped then landed g1 else g1

unfoldable pub fall : Game → Game
fall g =
    let (collided, g2) = shift_down (record g { ticks = 0 }) in
    if leb g.ticks_per_drop (g.ticks + 1)
    then (if collided then landed g2 else g2)
    else record g { ticks = g.ticks + 1 }

unfoldable pub check_lines : Game → Game
check_lines g =
    let (found, g1) = check_for_lines g in
    if found
    then record g1 { flash_count = 0; flash_ticks = 0; stage = line_check_flash }
    else record g1 { stage = spawn_block }

unfoldable pub flash : Game → Game
flash g =
    let flashed =
      if ltb 1 (g.flash_ticks + 1)
      then record g { flash_ticks = 0; flash_count = g.flash_count + 1 }
      else record g { flash_ticks = g.flash_ticks + 1 } in
    let cleared = record flashed { gameboard = clear_lines flashed.full_lines flashed.gameboard } in
    if leb 6 flashed.flash_count
    then record (update_score cleared) { stage = spawn_block }
    else flashed

-- The switch of `update`.
unfoldable pub run_stage : Stage → (random : ℕ) → Keys → Game → Game
run_stage spawn_block random k g = spawn random g
run_stage shift_down_blocks random k g = fall (act k g)
run_stage line_check random k g = check_lines g
run_stage line_check_flash random k g = flash g
run_stage pause random k g = g
run_stage game_over random k g = g

-- One tick.
unfoldable pub update : (random : ℕ) → List ℕ → Game → Game
update random keys g =
    let k = update_keys keys in
    let g1 = toggle_pause k g in
    if k.quit_pressed then record g { quit = true } else run_stage g1.stage random k g1

-- The loop of `tetris`, for as many ticks as there are random numbers and keys.
unfoldable pub play_all : List (ℕ × List ℕ) → Game → Game
play_all [] g = g
play_all ((random, keys) ∷ ticks) g = play_all ticks (if g.quit then g else update random keys g)
