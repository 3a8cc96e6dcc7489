-- ===== src/Rand.antt =====
-- programs/src/init/rand.c: the generator, with `next` as its state.
use bikeshed.Prelude.{ℕ, ◌+◌, ◌*◌, ◌/◌, ◌%◌, ◌^◌}

unfoldable pub seed : ℕ → ℕ
seed s = s % 2 ^ 32

-- The number and the next state.
unfoldable pub random32 : ℕ → ℕ × ℕ
random32 next = let next' = (next * 1103515245 + 12345) % 2 ^ 32 in (next' / 65536 % 32768, next')

unfoldable pub rand : ℕ → ℕ × ℕ
unfolding random32
rand next = random32 next
