-- ===== src/CString.antt =====
-- programs/src/init/string.c: C strings, as the list of their characters before the zero.
use bikeshed.Prelude.{
  ℕ, ◌+◌, ◌≡◌, refl, ◌∙◌, ◌↔◌, Bool, true, false, ◌==◌, arith, List, [], ◌∷◌, length, if◌then◌else◌,
}

-- The loop, with the length so far.
unfoldable pub strlen_loop : ℕ → List ℕ → ℕ
strlen_loop n [] = n
strlen_loop n (c ∷ str) = strlen_loop (n + 1) str

unfoldable pub strlen : List ℕ → ℕ
strlen str = strlen_loop 0 str

unfoldable pub streq : List ℕ → List ℕ → Bool
streq [] [] = true
streq [] (d ∷ str2) = false
streq (c ∷ str1) [] = false
streq (c ∷ str1) (d ∷ str2) = let rest = streq str1 str2 in if c == d then rest else false

strlen_loop-length : (n : ℕ) (str : List ℕ) → strlen_loop n str ≡ n + length str
unfolding strlen_loop
strlen_loop-length n [] = omega arith
strlen_loop-length n (c ∷ str) = omega (arith, strlen_loop-length (n + 1) str)

streq_sound : (a b : List ℕ) → streq a b ≡ true → a ≡ b
unfolding streq
streq_sound [] [] h = refl
streq_sound [] (d ∷ b) h = absurd (cc)
streq_sound (c ∷ a) [] h = absurd (cc)
streq_sound (c ∷ a) (d ∷ b) h = ground (arith, streq_sound a b)

pub streq_refl : (a : List ℕ) → streq a a ≡ true
unfolding streq
streq_refl [] = refl
streq_refl (c ∷ a) = ground (arith, streq_refl a)

-- `streq` is true exactly of equal strings, and these have the same `strlen`, the number of their
-- characters.
pub streq_iff :
    (a b : List ℕ) → ((streq a b ≡ true) ↔ (a ≡ b)) × (strlen a ≡ length a) × (strlen b ≡ length b)
unfolding strlen
streq_iff a b = (
  (streq_sound a b, λ e. rw e (streq_refl b)),
  strlen_loop-length 0 a ∙ omega arith,
  strlen_loop-length 0 b ∙ omega arith,
)
