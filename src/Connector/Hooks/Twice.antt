-- ===== src/Connector/Hooks/Twice.antt =====
-- What an installation leaves, and an installation after it.
use promptlens_v.Prelude.{
  Chars, Chars_eq, ◌≡◌, ◌≢◌, refl, sym, ap, ◌∙◌, ◌⊎◌, String, Bool, true, false, not, none, some,
  List, [], ◌++◌, arith, any, keep, inl, inr, Bool-cases, if◌then◌else◌,
}
use mathlib.Core.List.{append-nil}
use promptlens_v.Connector.Hooks.{
  HookGroup, Settings, Tool, legacy_command, event, table_of, groups_of, set_groups, is_legacy,
  is_ours, our_group, has_hook, without_legacy, next_groups, merged,
}
use promptlens_v.Connector.Hooks.Merge.{
  groups_of-set_groups, groups_of_other, legacy_gone, ours_kept, all_hooks,
  all_hooks-without_legacy, any_append, any_last, keep_others, all_hooks_last, our_group_ours,
  our_group_new,
}

abbrev pub event_groups : Settings → List HookGroup
event_groups s = groups_of event (table_of s.hooks)

-- The hook is there, no legacy hook is, and nothing else has changed: the other hooks of the event in
-- their order, the hooks of other events, the other keys.
pub record Installed (tool : Tool) (command : Chars) (s s' : Settings) : Type 0 where
  pub present : has_hook (is_ours tool command) (event_groups s') ≡ true
  pub clean : has_hook (is_legacy tool) (event_groups s') ≡ false
  pub kept :
      all_hooks (event_groups s')
      ≡ keep (λ h. not (is_legacy tool h)) (all_hooks (event_groups s))
        ++ (if has_hook (is_ours tool command) (event_groups s)
            then []
            else (our_group tool command).hooks)
  pub other_events :
      (name : String)
      → event ≢ name
      → groups_of name (table_of s'.hooks) ≡ groups_of name (table_of s.hooks)
  pub other_keys : s'.others ≡ s.others

module _ (tool : Tool) (command : Chars) (new : command ≢ legacy_command tool) where
  present_next :
      (groups : List HookGroup)
      → has_hook (is_ours tool command) (next_groups tool command groups) ≡ true
  unfolding next_groups
  present_next groups = elim (Bool-cases (has_hook (is_ours tool command) groups)) [
    | inl there ↦ rw (next_groups, there) there
    | inr missing ↦
        rw (next_groups, missing)
          (any_last (λ (g : HookGroup). any (is_ours tool command) g.hooks) groups
            (our_group tool command) (our_group_ours tool command))
  ]

  clean_next :
      (groups : List HookGroup)
      → has_hook (is_legacy tool) groups ≡ false
      → has_hook (is_legacy tool) (next_groups tool command groups) ≡ false
  unfolding next_groups
  clean_next groups h = elim (Bool-cases (has_hook (is_ours tool command) groups)) [
    | inl there ↦ rw (next_groups, there) h
    | inr missing ↦
        rw (next_groups, missing)
          (any_append (λ (g : HookGroup). any (is_legacy tool) g.hooks) groups
            (our_group tool command) h (our_group_new tool command new))
  ]

  all_hooks-next_groups :
      (groups : List HookGroup)
      → all_hooks (next_groups tool command groups)
        ≡ all_hooks groups
          ++ (if has_hook (is_ours tool command) groups then [] else (our_group tool command).hooks)
  unfolding next_groups
  all_hooks-next_groups groups = elim (Bool-cases (has_hook (is_ours tool command) groups)) [
    | inl there ↦ rw (next_groups, there) (sym (append-nil (all_hooks groups)))
    | inr missing ↦ rw (next_groups, missing) (all_hooks_last groups (our_group tool command))
  ]

  pub merged-none :
      (s : Settings)
      → has_hook (is_ours tool command) (event_groups s) ≡ true
      → has_hook (is_legacy tool) (event_groups s) ≡ false
      → merged tool command s ≡ none
  unfolding merged
  merged-none s there clean =
      rw (merged, ours_kept tool command new (event_groups s) ∙ there, clean) refl

  merged-some :
      (s : Settings)
      → (has_hook (is_ours tool command) (event_groups s) ≡ false)
        ⊎ (has_hook (is_legacy tool) (event_groups s) ≡ true)
      → merged tool command s
        ≡ some (record s {
          hooks = some (
              set_groups event
                (next_groups tool command (without_legacy tool (event_groups s)))
                (table_of s.hooks));
        })
  unfolding merged
  merged-some s (inl missing) =
      rw (merged, ours_kept tool command new (event_groups s) ∙ missing) refl
  merged-some s (inr legacy) = ground (arith, legacy)

  written-Installed :
      (s : Settings)
      → Installed tool command s (record s {
        hooks = some (
            set_groups event
              (next_groups tool command (without_legacy tool (event_groups s)))
              (table_of s.hooks));
      })
  written-Installed s =
      let groups = without_legacy tool (event_groups s) in
      let set = groups_of-set_groups event (next_groups tool command groups) (table_of s.hooks) in
      record {
        present = ap (has_hook (is_ours tool command)) set ∙ present_next groups;
        clean =
            ap (has_hook (is_legacy tool)) set
            ∙ clean_next groups (legacy_gone tool (event_groups s));
        kept =
            ap all_hooks set
            ∙ all_hooks-next_groups groups
            ∙ ap
                (λ hs.
                  hs
                  ++ (if has_hook (is_ours tool command) groups
                      then []
                      else (our_group tool command).hooks))
                (all_hooks-without_legacy tool (event_groups s))
            ∙ ap
                (λ (b : Bool).
                  keep (λ h. not (is_legacy tool h)) (all_hooks (event_groups s))
                  ++ (if b then [] else (our_group tool command).hooks))
                (ours_kept tool command new (event_groups s));
        other_events = λ name other.
            groups_of_other event name (next_groups tool command groups) (table_of s.hooks) other;
        other_keys = refl;
      }

  unwritten-Installed :
      (s : Settings)
      → has_hook (is_ours tool command) (event_groups s) ≡ true
      → has_hook (is_legacy tool) (event_groups s) ≡ false
      → Installed tool command s s
  unwritten-Installed s there clean = record {
    present = there;
    clean = clean;
    kept =
        let hs = keep (λ h. not (is_legacy tool h)) (all_hooks (event_groups s)) in
        sym (keep_others tool (event_groups s) clean)
        ∙ sym (append-nil hs)
        ∙ ap (λ (b : Bool). hs ++ (if b then [] else (our_group tool command).hooks)) (sym there);
    other_events = λ name other. refl;
    other_keys = refl;
  }

  -- The merge installs the hook, or finds it installed.
  pub merged-Installed :
      (s : Settings)
      → ((merged tool command s ≡ none) × Installed tool command s s)
        ⊎ ((s' : Settings) × (merged tool command s ≡ some s') × Installed tool command s s')
  merged-Installed s = elim (Bool-cases (has_hook (is_ours tool command) (event_groups s))) [
    | inr missing ↦ inr (_, merged-some s (inl missing), written-Installed s)
    | inl there ↦ elim (Bool-cases (has_hook (is_legacy tool) (event_groups s))) [
      | inl legacy ↦ inr (_, merged-some s (inr legacy), written-Installed s)
      | inr clean ↦ inl (merged-none s there clean, unwritten-Installed s there clean)
    ]
  ]
