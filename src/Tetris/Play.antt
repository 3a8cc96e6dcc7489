-- ===== src/Tetris/Play.antt =====
-- programs/src/init/tetris.c: the falling piece fits the board, whatever is pressed.
use bikeshed.Prelude.{
  ℕ, zero, suc, ◌+◌, ◌-◌, ◌%◌, ◌<◌, ◌≡◌, refl, sym, ap, ◌∙◌, Bool, true, false, ◌&&◌, not, arith,
  Bool-cases, inl, inr, if◌then◌else◌, List, [], ◌∷◌, ltb, leb,
}
use bikeshed.Prelude.Int.{ℤ, pos, negsuc, ◌+ℤ◌, ◌-ℤ◌, div_ℤ, int_laws}
use bikeshed.Tetris.Board.{Piece, Gameboard, is_empty, piece_of, block_offsets, check_collision}
use bikeshed.Tetris.{
  Stage, spawn_block, shift_down_blocks, line_check, line_check_flash, pause, game_over, Keys, Game,
  board_x, board_y, choose_piece, shift_down, update_score, drop_distance, handle_actions,
  place_current_block_on_board, check_for_lines, toggled, toggle_pause, run_stage, spawn, act, fall,
  check_lines, flash, update, update_keys, collides, reset_tetris, play_all,
}

-- A piece stands in a column of the board, and none of its blocks is off the board or taken.
pub record IsFitting (b : Gameboard) (p : Piece) (r : ℕ) (x y : ℤ) : Type 0 where
  pub column : ℤ
  pub origin : x ≡ pos 30 +ℤ (column +ℤ column)
  pub rotation : r < 4
  pub piece : is_empty p ≡ false
  pub free : check_collision b column (board_y y) (block_offsets r p) ≡ false

abbrev pub Fitting : Game → Type 0
Fitting g =
    IsFitting g.gameboard g.current_piece g.current_rotation g.piece_origin_x g.piece_origin_y

pub board_x-double : (m : ℤ) → board_x (pos 30 +ℤ (m +ℤ m)) ≡ m
unfolding ◌+ℤ◌ ◌-ℤ◌ div_ℤ
board_x-double (pos n) = ground arith
board_x-double (negsuc n) = ground arith

left_double : (m : ℤ) → pos 30 +ℤ (m +ℤ m) -ℤ pos 2 ≡ pos 30 +ℤ ((m -ℤ pos 1) +ℤ (m -ℤ pos 1))
left_double m = grind int_laws

right_double : (m : ℤ) → pos 30 +ℤ (m +ℤ m) +ℤ pos 2 ≡ pos 30 +ℤ ((m +ℤ pos 1) +ℤ (m +ℤ pos 1))
right_double m = grind int_laws

board_y-add : (y : ℤ) (n : ℕ) → board_y (y +ℤ pos n) ≡ board_y y +ℤ pos n
board_y-add y n = grind int_laws

add-zero : (y : ℤ) → y +ℤ pos 0 ≡ y
add-zero y = grind int_laws

if_lem :
    {A : Type 0} (P : A → Type 0) (b : Bool) (x y : A)
    → (b ≡ true → P x)
    → (b ≡ false → P y)
    → P (if b then x else y)
if_lem P true x y t f = t refl
if_lem P false x y t f = f refl

and_not : (a c : Bool) → (a && not c) ≡ true → c ≡ false
and_not a c h = ground arith

drop_distance-free :
    (fuel a : ℕ) (g : Game)
    → let y = board_y g.piece_origin_y in
      collides g (board_x g.piece_origin_x) (y +ℤ pos a) g.current_rotation ≡ false
      → collides g
          (board_x g.piece_origin_x)
          (y +ℤ pos (drop_distance fuel g (suc a) - 1))
          g.current_rotation
        ≡ false
unfolding drop_distance
drop_distance-free zero a g h = let same : suc a - 1 ≡ a = omega arith in rw same h
drop_distance-free (suc fuel) a g h =
    let x = board_x g.piece_origin_x in
    let y = board_y g.piece_origin_y in
    elim (Bool-cases (collides g x (y +ℤ pos (suc a)) g.current_rotation)) [
      | inl stop ↦ rw stop (let same : suc a - 1 ≡ a = omega arith in rw same h)
      | inr go ↦ rw go (drop_distance-free fuel (suc a) g go)
    ]

handle_actions-Fitting : (k : Keys) (g : Game) → Fitting g → Fitting (handle_actions k g).1
unfolding handle_actions
handle_actions-Fitting k g v =
    let x = board_x g.piece_origin_x in
    let y = board_y g.piece_origin_y in
    let r = g.current_rotation in
    let P = λ (out : Bool × Game). Fitting out.1 in
    let here : x ≡ v.column = ap (λ (t : ℤ). board_x t) v.origin ∙ board_x-double v.column in
    let stays : collides g x y r ≡ false = ap (λ (t : ℤ). collides g t y r) here ∙ v.free in
    let below = λ (n : ℕ) (h : collides g x (y +ℤ pos n) r ≡ false).
      ap (λ (t : ℤ). collides g v.column t r) (board_y-add g.piece_origin_y n)
      ∙ ap (λ (t : ℤ). collides g t (y +ℤ pos n) r) (sym here)
      ∙ h in
    if_lem P _ _ _
      (λ e. record {
        column = x -ℤ pos 1;
        origin = rw here (ap (λ (t : ℤ). t -ℤ pos 2) v.origin ∙ left_double v.column);
        rotation = v.rotation;
        piece = v.piece;
        free = and_not k.left_pressed _ e;
      })
      (λ _.
        if_lem P _ _ _
          (λ e. record {
            column = x +ℤ pos 1;
            origin = rw here (ap (λ (t : ℤ). t +ℤ pos 2) v.origin ∙ right_double v.column);
            rotation = v.rotation;
            piece = v.piece;
            free = and_not k.right_pressed _ e;
          })
          (λ _.
            if_lem P _ _ _
              (λ e. record {
                column = v.column;
                origin = v.origin;
                rotation = v.rotation;
                piece = v.piece;
                free = below 1 (and_not k.down_pressed _ e);
              })
              (λ _.
                if_lem P _ _ _
                  (λ e. record {
                    column = x;
                    origin = v.origin ∙ ap (λ (t : ℤ). pos 30 +ℤ (t +ℤ t)) (sym here);
                    rotation = omega arith;
                    piece = v.piece;
                    free = and_not k.rotate_pressed _ e;
                  })
                  (λ _.
                    if_lem P _ _ _
                      (λ _. record {
                        column = v.column;
                        origin = v.origin;
                        rotation = v.rotation;
                        piece = v.piece;
                        free = below (drop_distance 22 g 1 - 1) (
                            drop_distance-free 22 0 g
                              (ap (λ (t : ℤ). collides g x t r) (add-zero y) ∙ stays));
                      })
                      (λ _. v)))))

-- What a stage, and the stage to resume, ask of the falling piece.
abbrev pub InPlay : Stage → Stage → Type 0 → Type 0
InPlay shift_down_blocks prev F = F
InPlay pause shift_down_blocks F = F
InPlay _ prev F = Unit

InPlay-intro : (s prev : Stage) {F : Type 0} → F → InPlay s prev F
InPlay-intro shift_down_blocks prev f = f
InPlay-intro pause shift_down_blocks f = f
InPlay-intro pause spawn_block f = tt
InPlay-intro pause line_check f = tt
InPlay-intro pause line_check_flash f = tt
InPlay-intro pause pause f = tt
InPlay-intro pause game_over f = tt
InPlay-intro spawn_block prev f = tt
InPlay-intro line_check prev f = tt
InPlay-intro line_check_flash prev f = tt
InPlay-intro game_over prev f = tt

InPlay-resume : (prev : Stage) (F : Type 0) → InPlay pause prev F → InPlay prev prev F
InPlay-resume spawn_block F f = tt
InPlay-resume shift_down_blocks F f = f
InPlay-resume line_check F f = tt
InPlay-resume line_check_flash F f = tt
InPlay-resume pause F f = tt
InPlay-resume game_over F f = tt

-- The next piece is a piece, and the falling one fits while it is in play.
pub record IsPlayable (g : Game) : Type 0 where
  pub next : is_empty g.next_piece ≡ false
  pub play : InPlay g.stage g.stage_pause_prev (Fitting g)

spawned_piece : (n : ℕ) → n < 7 → is_empty (piece_of n) ≡ false
spawned_piece zero h = refl
spawned_piece (suc zero) h = refl
spawned_piece (suc (suc zero)) h = refl
spawned_piece (suc (suc (suc zero))) h = refl
spawned_piece (suc (suc (suc (suc zero)))) h = refl
spawned_piece (suc (suc (suc (suc (suc zero))))) h = refl
spawned_piece (suc (suc (suc (suc (suc (suc zero)))))) h = refl
spawned_piece (suc (suc (suc (suc (suc (suc (suc n))))))) h = absurd (omega arith)

spawn-IsPlayable :
    (random : ℕ) (g : Game) → is_empty g.next_piece ≡ false → IsPlayable (spawn random g)
unfolding spawn choose_piece ◌+ℤ◌ div_ℤ ◌-ℤ◌
spawn-IsPlayable random g next =
    let drawn = spawned_piece (random % 7) (omega arith) in
    elim (Bool-cases (
      check_collision g.gameboard (board_x (pos 40)) (board_y (pos 2))
        (block_offsets 0 g.next_piece))) [
          | inl stop ↦ rw stop (record { next = drawn; play = tt })
          | inr go ↦ rw go (record {
            next = drawn;
            play = record {
              column = pos 5;
              origin = refl;
              rotation = omega arith;
              piece = next;
              free = go;
            };
          })
        ]

-- Off play, a fall stays off play.
fall_landed :
    (g : Game) → is_empty g.next_piece ≡ false → IsPlayable (fall (record g { stage = line_check }))
unfolding fall shift_down place_current_block_on_board
fall_landed g next =
    let x = board_x g.piece_origin_x in
    let y = board_y g.piece_origin_y in
    elim (Bool-cases (leb g.ticks_per_drop (g.ticks + 1))) [
      | inl due ↦ elim (Bool-cases (collides g x (y +ℤ pos 1) g.current_rotation)) [
        | inl stop ↦ rw (due, stop) (record { next = next; play = tt })
        | inr go ↦ rw (due, go) (record { next = next; play = tt })
      ]
      | inr early ↦ rw early (record { next = next; play = tt })
    ]

fall-IsPlayable : (g : Game) → is_empty g.next_piece ≡ false → Fitting g → IsPlayable (fall g)
unfolding fall shift_down place_current_block_on_board
fall-IsPlayable g next v =
    let x = board_x g.piece_origin_x in
    let y = board_y g.piece_origin_y in
    let r = g.current_rotation in
    let here : x ≡ v.column = ap (λ (t : ℤ). board_x t) v.origin ∙ board_x-double v.column in
    elim (Bool-cases (leb g.ticks_per_drop (g.ticks + 1))) [
      | inl due ↦ elim (Bool-cases (collides g x (y +ℤ pos 1) r)) [
        | inl stop ↦ rw (due, stop) (record { next = next; play = tt })
        | inr go ↦
            rw (due, go)
              (record {
                next = next;
                play = InPlay-intro g.stage g.stage_pause_prev (record {
                  column = v.column;
                  origin = v.origin;
                  rotation = v.rotation;
                  piece = v.piece;
                  free =
                      ap (λ (t : ℤ). collides g v.column t r) (board_y-add g.piece_origin_y 1)
                      ∙ ap (λ (t : ℤ). collides g t (y +ℤ pos 1) r) (sym here)
                      ∙ go;
                });
              })
      ]
      | inr early ↦
          rw early (record { next = next; play = InPlay-intro g.stage g.stage_pause_prev v })
    ]

-- `handle_actions` leaves the next piece alone.
handle_actions_next : (k : Keys) (g : Game) → (handle_actions k g).1.next_piece ≡ g.next_piece
unfolding handle_actions
handle_actions_next k g = ground arith

fall-act-IsPlayable :
    (k : Keys) (g : Game) → is_empty g.next_piece ≡ false → Fitting g → IsPlayable (fall (act k g))
unfolding act place_current_block_on_board
fall-act-IsPlayable k g next v =
    let moved = (handle_actions k g).1 in
    let next' = ap (λ (p : Piece). is_empty p) (handle_actions_next k g) ∙ next in
    elim (Bool-cases ((handle_actions k g).0)) [
      | inl dropped ↦ rw dropped (fall_landed (place_current_block_on_board moved) next')
      | inr falling ↦ rw falling (fall-IsPlayable moved next' (handle_actions-Fitting k g v))
    ]

run_stage-IsPlayable :
    (s : Stage) (random : ℕ) (k : Keys) (g : Game)
    → g.stage ≡ s
    → is_empty g.next_piece ≡ false
    → InPlay s g.stage_pause_prev (Fitting g)
    → IsPlayable (run_stage s random k g)
unfolding run_stage check_lines check_for_lines flash update_score
run_stage-IsPlayable spawn_block random k g e next play = spawn-IsPlayable random g next
run_stage-IsPlayable shift_down_blocks random k g e next play = fall-act-IsPlayable k g next play
run_stage-IsPlayable line_check random k g e next play = elim (Bool-cases ((check_for_lines g).0)) [
  | inl found ↦ rw found (record { next = next; play = tt })
  | inr clear ↦ rw clear (record { next = next; play = tt })
]
run_stage-IsPlayable line_check_flash random k g e next play =
    elim (Bool-cases (ltb 1 (g.flash_ticks + 1))) [
      | inl toggle ↦ elim (Bool-cases (leb 6 (g.flash_count + 1))) [
        | inl done ↦ rw (toggle, done) (record { next = next; play = tt })
        | inr more ↦ rw (toggle, more) (record { next = next; play = rw e tt })
      ]
      | inr wait ↦ elim (Bool-cases (leb 6 g.flash_count)) [
        | inl done ↦ rw (wait, done) (record { next = next; play = tt })
        | inr more ↦ rw (wait, more) (record { next = next; play = rw e tt })
      ]
    ]
run_stage-IsPlayable pause random k g e next play = record { next = next; play = rw e play }
run_stage-IsPlayable game_over random k g e next play = record { next = next; play = rw e tt }

toggled-IsPlayable :
    (s : Stage) (g : Game)
    → g.stage ≡ s
    → is_empty g.next_piece ≡ false
    → InPlay s g.stage_pause_prev (Fitting g)
    → IsPlayable (toggled s g)
unfolding toggled
toggled-IsPlayable spawn_block g e next play = record { next = next; play = rw e tt }
toggled-IsPlayable shift_down_blocks g e next play = record { next = next; play = rw e play }
toggled-IsPlayable line_check g e next play = record { next = next; play = rw e tt }
toggled-IsPlayable line_check_flash g e next play = record { next = next; play = rw e tt }
toggled-IsPlayable game_over g e next play = record { next = next; play = rw e tt }
toggled-IsPlayable pause g e next play = record {
  next = next;
  play = InPlay-resume g.stage_pause_prev (Fitting g) play;
}

toggle_pause-IsPlayable : (k : Keys) (g : Game) → IsPlayable g → IsPlayable (toggle_pause k g)
unfolding toggle_pause
toggle_pause-IsPlayable k g v =
    if_lem IsPlayable k.pause_pressed (toggled g.stage g) g
      (λ _. toggled-IsPlayable g.stage g refl v.next v.play) (λ _. v)

-- One tick of the game, whatever the keys and the random number are, keeps the next piece a
-- piece and the falling piece fitting: as long as a piece is in play, also while the game is
-- paused, its blocks are on the board and on empty places.
pub update-IsPlayable :
    (random : ℕ) (keys : List ℕ) (g : Game) → IsPlayable g → IsPlayable (update random keys g)
unfolding update
update-IsPlayable random keys g v =
    let k = update_keys keys in
    let g1 = toggle_pause k g in
    let v1 = toggle_pause-IsPlayable k g v in
    if_lem IsPlayable k.quit_pressed (record g { quit = true }) (run_stage g1.stage random k g1)
      (λ _. record { next = v.next; play = v.play })
      (λ _. run_stage-IsPlayable g1.stage random k g1 refl v1.next v1.play)

-- A new game is playable.
reset_tetris-IsPlayable : (g : Game) → IsPlayable (reset_tetris g)
unfolding reset_tetris
reset_tetris-IsPlayable g = record { next = refl; play = tt }

play_all-IsPlayable :
    (ticks : List (ℕ × List ℕ)) (g : Game) → IsPlayable g → IsPlayable (play_all ticks g)
unfolding play_all
play_all-IsPlayable [] g v = v
play_all-IsPlayable ((random, keys) ∷ ticks) g v =
    play_all-IsPlayable ticks (if g.quit then g else update random keys g) (
      if_lem IsPlayable g.quit g (update random keys g) (λ _. v)
        (λ _. update-IsPlayable random keys g v))

-- Whatever is pressed and drawn from the start of a game on, its falling piece fits.
play_all-reset :
    (ticks : List (ℕ × List ℕ)) (g : Game) → IsPlayable (play_all ticks (reset_tetris g))
play_all-reset ticks g = play_all-IsPlayable ticks (reset_tetris g) (reset_tetris-IsPlayable g)
