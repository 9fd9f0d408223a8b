-- ===== src/Connector/Hooks/Install.antt =====
-- What installHook leaves in the files of the tool.
use promptlens_v.Prelude.{Chars, ◌≡◌, ◌≢◌, refl, ap, ◌∙◌, ◌⊎◌, some, arith, inl, inr}
use promptlens_v.Store.{Error, Result, ok, err, Result-cases}
use promptlens_v.Connector.Command.{Platform, capture_command}
use promptlens_v.Connector.Command.Quoted.{capture_command_new}
use promptlens_v.Connector.Hooks.{
  Settings, Tool, legacy_command, merged, Json, Files, backed_up, read_settings, write_settings,
  install_hook,
}
use promptlens_v.Connector.Hooks.Twice.{Installed, merged-Installed, merged-none}

module _ {Text : Type 0} (json : Json Text) (tool : Tool) (command : Chars) where
  -- The settings that the files hold before and after, and the backup.
  pub record Installation (files files' : Files Text) : Type 0 where
    pub before : Settings
    pub after : Settings
    pub read_before : read_settings json tool command files.settings ≡ ok before
    pub read_after : read_settings json tool command files'.settings ≡ ok after
    pub installed : Installed tool command before after
    pub saved : (files' ≡ files) ⊎ (files'.backup ≡ backed_up files.settings files.backup)

module _ {Text : Type 0} (json : Json Text) (tool : Tool) (command : Chars)
    (new : command ≢ legacy_command tool) where
  read_settings_printed :
      (s : Settings) → read_settings json tool command (some (json.print s)) ≡ ok s
  unfolding read_settings
  read_settings_printed s = rw (read_settings, json.parse-print s) refl

  install_fails :
      (files : Files Text) (e : Error)
      → read_settings json tool command files.settings ≡ err e
      → install_hook json tool command files ≡ (err e, files)
  unfolding install_hook
  install_fails files e h = rw (install_hook, h) refl

  install_writes :
      (files : Files Text) (s : Settings)
      → read_settings json tool command files.settings ≡ ok s
      → install_hook json tool command files
        ≡ (ok tt, write_settings json tool command files (merged tool command s))
  unfolding install_hook
  install_writes files s h = rw (install_hook, h) refl

  installation :
      (files : Files Text)
      → ((e : Error) × (install_hook json tool command files ≡ (err e, files)))
        ⊎ ((files' : Files Text) × (install_hook json tool command files ≡ (ok tt, files'))
            × Installation json tool command files files')
  unfolding write_settings
  installation files = elim (Result-cases (read_settings json tool command files.settings)) [
    | inr (e, h) ↦ inl (e, install_fails files e h)
    | inl (s, h) ↦ elim (merged-Installed tool command new s) [
      | inl (nothing, done) ↦ inr (
        files,
        install_writes files s h
            ∙ ap (λ m. (ok tt, write_settings json tool command files m)) nothing,
        record {
          before = s;
          after = s;
          read_before = h;
          read_after = h;
          installed = done;
          saved = inl refl;
        },
      )
      | inr (s', something, done) ↦ inr (
        record { settings = some (json.print s'); backup = backed_up files.settings files.backup },
        install_writes files s h
            ∙ ap (λ m. (ok tt, write_settings json tool command files m)) something,
        record {
          before = s;
          after = s';
          read_before = h;
          read_after = read_settings_printed s';
          installed = done;
          saved = inr refl;
        },
      )
    ]
  ]

  again :
      (files files' : Files Text) (i : Installation json tool command files files')
      → install_hook json tool command files' ≡ (ok tt, files')
  unfolding write_settings
  again files files' i =
      install_writes files' i.after i.read_after
      ∙ ap (λ m. (ok tt, write_settings json tool command files' m))
          (merged-none tool command new i.after i.installed.present i.installed.clean)

legacy_differs :
    (tool : Tool) (platform : Platform) (exec_path cli : Chars)
    → capture_command platform exec_path cli ≢ legacy_command tool
legacy_differs Tool.claude platform exec_path cli = capture_command_new platform exec_path cli _
legacy_differs Tool.codex platform exec_path cli = capture_command_new platform exec_path cli _

module _ {Text : Type 0} (json : Json Text) (tool : Tool) (platform : Platform)
    (exec_path cli : Chars) where
  abbrev pub install : Files Text → Result (Unit {0}) × Files Text
  install files = install_hook json tool (capture_command platform exec_path cli) files

  -- An installation that succeeds leaves the hook of the connector in the settings and no legacy
  -- hook, keeps all other hooks of the event in their order, the hooks of other events and the
  -- other keys, and a backup of the settings that it replaces. One that fails changes no file.
  pub install_hook-Installation :
      (files : Files Text)
      → ((e : Error) × (install files ≡ (err e, files)))
        ⊎ ((files' : Files Text) × (install files ≡ (ok tt, files'))
            × Installation json tool (capture_command platform exec_path cli) files files')
  install_hook-Installation files =
      installation json tool (capture_command platform exec_path cli)
        (legacy_differs tool platform exec_path cli) files

  -- Installing the hook a second time after it succeeded changes nothing, on either platform and for
  -- both tools.
  pub install_hook_twice :
      (files : Files Text)
      → (install files).0 ≡ ok tt
      → install (install files).1 ≡ (ok tt, (install files).1)
  install_hook_twice files h = elim (install_hook-Installation files) [
    | inl (e, failed) ↦ absurd (ground (arith, failed))
    | inr (files', done, i) ↦ rw (ap (λ (r : Result (Unit {0}) × Files Text). r.1) done) (
        again json tool (capture_command platform exec_path cli)
          (legacy_differs tool platform exec_path cli) files files' i)
  ]
