-- ===== src/Shell/Tests.antt =====
-- The theorem on the shell's input at a line with a correction, and the line that it gives.
use bikeshed.Prelude.{ℕ, ◌≡◌, refl, List, [], ◌∷◌, some}
use bikeshed.Shell.{Shell, read_command, help, which_command}
use bikeshed.Shell.Edit.{edit, edit_all, IsRead, read_command-IsRead}
use bikeshed.CString.{streq}

abbrev keys : List ℕ
keys = b'\n' ∷ b'h' ∷ b'o' ∷ 8 ∷ b'i' ∷ b'\n' ∷ b'x' ∷ []

abbrev prompt : Shell
prompt = record {
  command = λ i. 0;
  command_length = 0;
  screen = record { x = 0; y = 0; color = 15; video = λ i. (0, 0) };
}

read_command-IsRead_example : IsRead (read_command keys prompt) (edit_all keys [])
read_command-IsRead_example = read_command-IsRead keys prompt

edited : edit_all keys [] ≡ some (b'x' ∷ [], b'i' ∷ b'h' ∷ [])
unfolding edit_all edit
edited = refl

helped : which_command (b'h' ∷ b'e' ∷ b'l' ∷ b'p' ∷ []) ≡ help
unfolding which_command streq
helped = refl
