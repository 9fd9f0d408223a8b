-- ===== src/Connector/Hooks/Tests.antt =====
-- Examples for the installation of the hook.
use promptlens_v.Prelude.{Chars, codes, ◌≡◌, refl, Option, none, some, [], ◌∷◌}
use promptlens_v.Store.{ok}
use promptlens_v.Connector.Command.{Platform}
use promptlens_v.Connector.Hooks.{
  Hook, Settings, Tool, Json, Files, install_hook, read_settings, write_settings, legacy_command,
}
use promptlens_v.Connector.Hooks.Install.{install, install_hook_twice}

abbrev node : Chars
node = codes "/usr/bin/node"

abbrev cli : Chars
cli = codes "/home/o'neil/my app/cli.js"

-- A file that holds settings, or something else.
abbrev json : Json (Option Settings)
json = record { parse = λ t. t; print = λ s. some s; parse-print = λ s. refl }

abbrev hook : Chars → Hook
hook command = record { kind = codes "command"; command = command; timeout = none }

abbrev old : Settings
old = record {
  hooks = some (
      (
        "UserPromptSubmit",
        record {
          matcher = none;
          hooks = hook (legacy_command Tool.claude) ∷ hook (codes "other") ∷ [];
        }
            ∷ [],
      )
      ∷ []);
  others = [];
}

abbrev files : Files (Option Settings)
files = record { settings = some (some old); backup = none }

installs : (install json Tool.claude Platform.posix node cli files).0 ≡ ok tt
unfolding install_hook read_settings write_settings
installs = refl

install_hook_twice_example :
    install json Tool.claude Platform.posix node cli
      (install json Tool.claude Platform.posix node cli files).1
    ≡ (ok tt, (install json Tool.claude Platform.posix node cli files).1)
install_hook_twice_example =
    install_hook_twice json Tool.claude Platform.posix node cli files installs
