-- ===== src/Connector/Command/Quoted.antt =====
-- The command is told from one that starts with a letter.
use promptlens_v.Prelude.{ℕ, Chars, ◌≢◌, ap, [], ◌∷◌, arith}
use promptlens_v.Connector.Command.{Platform, shell_quote, capture_command}

head : Chars → ℕ
head [] = 0
head (c ∷ _) = c

pub capture_command_new :
    (platform : Platform) (exec_path cli t : Chars)
    → capture_command platform exec_path cli ≢ b'p' ∷ t
unfolding capture_command shell_quote head
capture_command_new Platform.win32 exec_path cli t e = absurd (omega (arith, ap head e))
capture_command_new Platform.posix exec_path cli t e = absurd (omega (arith, ap head e))
