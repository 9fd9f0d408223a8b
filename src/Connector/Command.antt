-- ===== src/Connector/Command.antt =====
-- shellQuote and captureCommand of connectors/claude-code/src/install.ts and
-- connectors/codex/src/install.ts. The paths of node and of cli.js are arguments.
pub mod Shell
pub mod Quoted
mod Tests
use promptlens_v.Prelude.{
  ℕ, Chars, codes, Bool, true, false, List, [], ◌∷◌, ◌++◌, ◌==◌, ℕ_eq, if◌then◌else◌,
}

pub data Platform : Type 0 where
  win32 posix : Platform

-- `replaceAll(c, text)` for a text c of one character.
pub replace_all : (c : ℕ) → (text : Chars) → Chars → Chars
replace_all c text [] = []
replace_all c text (d ∷ t) =
    let rest = replace_all c text t in if d == c then text ++ rest else d ∷ rest

pub shell_quote : Platform → Chars → Chars
shell_quote Platform.win32 value = b'"' ∷ replace_all b'"' (b'\\' ∷ b'"' ∷ []) value ++ b'"' ∷ []
shell_quote Platform.posix value =
    b'\'' ∷ replace_all b'\'' (b'\'' ∷ b'"' ∷ b'\'' ∷ b'"' ∷ b'\'' ∷ []) value ++ b'\'' ∷ []

-- ` capture`
abbrev pub capture : Chars
capture = codes "capture"

pub capture_command : Platform → (exec_path cli : Chars) → Chars
capture_command platform exec_path cli =
    shell_quote platform exec_path ++ b' ' ∷ (shell_quote platform cli ++ b' ' ∷ capture)
