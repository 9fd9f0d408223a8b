-- ===== src/Connector/Hooks.antt =====
-- installHook of connectors/claude-code/src/install.ts and connectors/codex/src/install.ts: the merge
-- of the hook into the settings of the tool, and the files it writes. The settings are JSON:
-- `hooks` is what the code reads of them, `others` all other keys. Parser and printer are
-- parameters; other failures of the file system are left out.
pub mod Merge
pub mod Twice
pub mod Install
mod Tests
use promptlens_v.Prelude.{
  ℕ, Chars, codes, Chars_eq, ◌≡◌, String, Bool, true, false, not, ◌&&◌, ◌||◌, Option, none, some,
  List, [], ◌∷◌, ◌++◌, map, ◌==◌, String_eq, if◌then◌else◌, any, keep,
}
use promptlens_v.Store.{Result, ok, err, failure}

pub record Hook : Type 0 where
  pub kind : Chars
  pub command : Chars
  pub timeout : Option ℕ

pub record HookGroup : Type 0 where
  pub matcher : Option Chars
  pub hooks : List Hook

-- `Record<string, HookGroup[]>` in the order of its keys.
abbrev pub HookTable : Type 0
HookTable = List (String × List HookGroup)

pub record Settings : Type 0 where
  pub hooks : Option HookTable
  pub others : List (String × Chars)

pub data Tool : Type 0 where
  claude codex : Tool

abbrev pub legacy_command : Tool → Chars
legacy_command Tool.claude = codes "promptlens-claude capture"
legacy_command Tool.codex = codes "promptlens-codex capture"

-- The settings where there is no file.
abbrev pub initial : Tool → Settings
initial Tool.claude = record { hooks = none; others = [] }
initial Tool.codex = record {
  hooks = none;
  others = ("description", codes "User-level PromptLens lifecycle hooks.") ∷ [];
}

abbrev pub event : String
event = "UserPromptSubmit"

abbrev pub table_of : Option HookTable → HookTable
table_of none = []
table_of (some table) = table

-- `hooks[name] ?? []`
pub groups_of : String → HookTable → List HookGroup
groups_of name [] = []
groups_of name ((key, groups) ∷ table) =
    let rest = groups_of name table in if key == name then groups else rest

-- `hooks[name] = groups`: a key that is there keeps its place.
pub set_groups : String → List HookGroup → HookTable → HookTable
set_groups name groups [] = (name, groups) ∷ []
set_groups name groups ((key, old) ∷ table) =
    let rest = set_groups name groups table in
    if key == name then (key, groups) ∷ table else (key, old) ∷ rest

abbrev pub is_legacy : Tool → Hook → Bool
is_legacy tool h = h.command == legacy_command tool

abbrev pub is_ours : Tool → (command : Chars) → Hook → Bool
is_ours Tool.claude command h = h.kind == codes "command" && h.command == command
is_ours Tool.codex command h = h.command == command

abbrev pub our_group : Tool → (command : Chars) → HookGroup
our_group Tool.claude command = record {
  matcher = some [];
  hooks = record { kind = codes "command"; command = command; timeout = some 5 } ∷ [];
}
our_group Tool.codex command = record {
  matcher = none;
  hooks = record { kind = codes "command"; command = command; timeout = some 5 } ∷ [];
}

abbrev pub has_hook : (Hook → Bool) → List HookGroup → Bool
has_hook p groups = any (λ (g : HookGroup). any p g.hooks) groups

abbrev pub is_nonempty : {A : Type 0} → List A → Bool
is_nonempty [] = false
is_nonempty (_ ∷ _) = true

pub without_legacy : Tool → List HookGroup → List HookGroup
without_legacy tool groups =
    keep (λ (g : HookGroup). is_nonempty g.hooks)
      (map (λ (g : HookGroup). record g { hooks = keep (λ h. not (is_legacy tool h)) g.hooks })
        groups)

-- The groups with the hook added where none has it.
pub next_groups : Tool → (command : Chars) → List HookGroup → List HookGroup
next_groups tool command groups =
    if has_hook (is_ours tool command) groups then groups else groups ++ our_group tool command ∷ []

-- The settings to write; none where nothing is to be written.
pub merged : Tool → (command : Chars) → Settings → Option Settings
merged tool command settings =
    let table = table_of settings.hooks in
    let before = groups_of event table in
    let legacy_installed = has_hook (is_legacy tool) before in
    let groups = without_legacy tool before in
    let installed = has_hook (is_ours tool command) groups in
    let groups' = next_groups tool command groups in
    if not installed || legacy_installed
    then some (record settings { hooks = some (set_groups event groups' table) })
    else none

-- JSON.parse and JSON.stringify on the contents of a file.
pub record Json (Text : Type 0) : Type 0 where
  pub parse : Text → Option Settings
  pub print : Settings → Text
  -- What was printed is parsed again.
  pub parse-print : (s : Settings) → parse (print s) ≡ some s

pub record Files (Text : Type 0) : Type 0 where
  pub settings : Option Text
  pub backup : Option Text

-- A backup is made where there was a file.
abbrev pub backed_up : {Text : Type 0} (settings backup : Option Text) → Option Text
backed_up none old = old
backed_up (some t) old = some t

module _ {Text : Type 0} (json : Json Text) (tool : Tool) (command : Chars) where
  pub read_settings : Option Text → Result Settings
  read_settings none = ok (initial tool)
  read_settings (some t) = parsed (json.parse t)
    where
      parsed : Option Settings → Result Settings
      parsed none = err (failure "SyntaxError")
      parsed (some s) = ok s

  pub write_settings : Files Text → Option Settings → Files Text
  write_settings files none = files
  write_settings files (some s) = record {
    settings = some (json.print s);
    backup = backed_up files.settings files.backup;
  }

  pub install_hook : Files Text → Result (Unit {0}) × Files Text
  install_hook files = installed (read_settings files.settings)
    where
      installed : Result Settings → Result (Unit {0}) × Files Text
      installed (ok s) = (ok tt, write_settings files (merged tool command s))
      installed (err e) = (err e, files)
