-- ===== src/Connector/Hooks/Merge.antt =====
-- What the merge does to the hooks of the tool.
use promptlens_v.Prelude.{
  Chars, Chars_eq, same_chars, same_chars_iff, ◌≡◌, ◌≢◌, refl, sym, ap, ◌∙◌, String, Bool, true,
  false, not, List, [], ◌∷◌, ◌++◌, arith, String_eq, any, keep, inl, inr, Bool-cases,
}
use promptlens_v.Connector.Hooks.{
  Hook, HookGroup, HookTable, Tool, legacy_command, groups_of, set_groups, is_legacy, is_ours,
  our_group, has_hook, is_nonempty, without_legacy,
}
use text.Mathlib.TextEquality.{eq_iff}
use mathlib.Core.List.{append_assoc, append-nil}

module _ {A : Type 0} (p : A → Bool) where
  pub any_append :
      (xs : List A) (x : A) → any p xs ≡ false → p x ≡ false → any p (xs ++ x ∷ []) ≡ false
  any_append [] x h k = ground arith
  any_append (y ∷ xs) x h k = ground (arith, any_append xs x)

  pub any_last : (xs : List A) (x : A) → p x ≡ true → any p (xs ++ x ∷ []) ≡ true
  any_last [] x k = ground arith
  any_last (y ∷ xs) x k = ground (arith, any_last xs x k)

  any_dropped : (xs : List A) → any p (keep (λ x. not (p x)) xs) ≡ false
  any_dropped [] = refl
  any_dropped (x ∷ xs) = ground (arith, any_dropped xs)

  any_kept :
      (q : A → Bool) (xs : List A)
      → ((x : A) → p x ≡ true → q x ≡ true)
      → any p (keep q xs) ≡ any p xs
  any_kept q [] h = refl
  any_kept q (x ∷ xs) h = ground (arith, h x, any_kept q xs h)

  none_of_empty : (xs : List A) → is_nonempty xs ≡ false → any p xs ≡ false
  none_of_empty [] h = refl
  none_of_empty (x ∷ xs) h = absurd (ground arith)

empty_list : {A : Type 0} (xs : List A) → is_nonempty xs ≡ false → xs ≡ []
empty_list [] h = refl
empty_list (x ∷ xs) h = absurd (ground arith)

ours_command :
    (tool : Tool) (command : Chars) (h : Hook) → is_ours tool command h ≡ true → h.command ≡ command
ours_command Tool.claude command h e = (same_chars_iff h.command command).0 (ground arith)
ours_command Tool.codex command h e = (same_chars_iff h.command command).0 e

-- No group and no other key is touched by setting one.
pub groups_of-set_groups :
    (name : String) (groups : List HookGroup) (table : HookTable)
    → groups_of name (set_groups name groups table) ≡ groups
unfolding groups_of set_groups
groups_of-set_groups name groups [] = ground (arith, eq_iff name name)
groups_of-set_groups name groups ((key, old) ∷ table) =
    ground (arith, eq_iff key name, groups_of-set_groups name groups table)

pub groups_of_other :
    (name other : String) (groups : List HookGroup) (table : HookTable)
    → name ≢ other
    → groups_of other (set_groups name groups table) ≡ groups_of other table
unfolding groups_of set_groups
groups_of_other name other groups [] h = ground (arith, eq_iff name other)
groups_of_other name other groups ((key, old) ∷ table) h = ground (
  arith,
  eq_iff key name,
  eq_iff key other,
  eq_iff name other,
  groups_of_other name other groups table h,
)

-- All hooks of some groups, in their order.
abbrev pub all_hooks : List HookGroup → List Hook
all_hooks [] = []
all_hooks (g ∷ groups) = g.hooks ++ all_hooks groups

keep_append : (q : Hook → Bool) (xs ys : List Hook) → keep q (xs ++ ys) ≡ keep q xs ++ keep q ys
keep_append q [] ys = refl
keep_append q (x ∷ xs) ys = ground (arith, keep_append q xs ys)

module _ (tool : Tool) where
  -- No legacy hook is left.
  pub legacy_gone :
      (groups : List HookGroup) → has_hook (is_legacy tool) (without_legacy tool groups) ≡ false
  unfolding without_legacy
  legacy_gone [] = refl
  legacy_gone (g ∷ groups) =
      ground (arith, any_dropped (is_legacy tool) g.hooks, legacy_gone groups)

  -- The others stay, in their order.
  pub all_hooks-without_legacy :
      (groups : List HookGroup)
      → all_hooks (without_legacy tool groups)
        ≡ keep (λ h. not (is_legacy tool h)) (all_hooks groups)
  unfolding without_legacy
  all_hooks-without_legacy [] = refl
  all_hooks-without_legacy (g ∷ groups) =
      let q : Hook → Bool = λ h. not (is_legacy tool h) in
      elim (Bool-cases (is_nonempty (keep q g.hooks))) [
        | inl some_left ↦ rw some_left (
            ap (λ hs. keep q g.hooks ++ hs) (all_hooks-without_legacy groups)
            ∙ sym (keep_append q g.hooks (all_hooks groups)))
        | inr empty ↦ rw empty (
            all_hooks-without_legacy groups
            ∙ sym (ap (λ hs. hs ++ keep q (all_hooks groups)) (empty_list (keep q g.hooks) empty))
            ∙ sym (keep_append q g.hooks (all_hooks groups)))
      ]

  module _ (command : Chars) (new : command ≢ legacy_command tool) where
    ours_stays : (h : Hook) → is_ours tool command h ≡ true → not (is_legacy tool h) ≡ true
    ours_stays h e = elim (Bool-cases (is_legacy tool h)) [
      | inl legacy ↦ absurd (
          new (
            sym (ours_command tool command h e)
            ∙ (same_chars_iff h.command (legacy_command tool)).0 legacy))
      | inr other ↦ rw other refl
    ]

    pub ours_kept :
        (groups : List HookGroup)
        → has_hook (is_ours tool command) (without_legacy tool groups)
          ≡ has_hook (is_ours tool command) groups
    unfolding without_legacy
    ours_kept [] = refl
    ours_kept (g ∷ groups) = ground (
      arith,
      any_kept (is_ours tool command) (λ h. not (is_legacy tool h)) g.hooks ours_stays,
      none_of_empty (is_ours tool command) (keep (λ h. not (is_legacy tool h)) g.hooks),
      ours_kept groups,
    )

-- Where no hook is a legacy one, all are kept.
pub keep_others :
    (tool : Tool) (groups : List HookGroup)
    → has_hook (is_legacy tool) groups ≡ false
    → keep (λ h. not (is_legacy tool h)) (all_hooks groups) ≡ all_hooks groups
keep_others tool [] h = refl
keep_others tool (g ∷ groups) h =
    keep_append (λ z. not (is_legacy tool z)) g.hooks (all_hooks groups)
    ∙ ap (λ hs. hs ++ keep (λ z. not (is_legacy tool z)) (all_hooks groups))
        (kept g.hooks (ground arith))
    ∙ ap (λ hs. g.hooks ++ hs) (keep_others tool groups (ground arith))
  where
    kept :
        (hs : List Hook)
        → any (is_legacy tool) hs ≡ false
        → keep (λ z. not (is_legacy tool z)) hs ≡ hs
    kept [] e = refl
    kept (z ∷ hs) e = ground (arith, kept hs)

pub all_hooks_last :
    (groups : List HookGroup) (g : HookGroup)
    → all_hooks (groups ++ g ∷ []) ≡ all_hooks groups ++ g.hooks
all_hooks_last [] g = append-nil g.hooks
all_hooks_last (f ∷ groups) g =
    ap (λ hs. f.hooks ++ hs) (all_hooks_last groups g)
    ∙ sym (append_assoc f.hooks (all_hooks groups) g.hooks)

pub our_group_ours :
    (tool : Tool) (command : Chars)
    → any (is_ours tool command) (our_group tool command).hooks ≡ true
our_group_ours Tool.claude command = ground (arith, (same_chars_iff command command).1 refl)
our_group_ours Tool.codex command = ground (arith, (same_chars_iff command command).1 refl)

pub our_group_new :
    (tool : Tool) (command : Chars)
    → command ≢ legacy_command tool
    → any (is_legacy tool) (our_group tool command).hooks ≡ false
our_group_new tool command new = elim (Bool-cases (same_chars command (legacy_command tool))) [
  | inl e ↦ absurd (new ((same_chars_iff command (legacy_command tool)).0 e))
  | inr e ↦ only tool e
]
  where
    only :
        (tool : Tool)
        → same_chars command (legacy_command tool) ≡ false
        → any (is_legacy tool) (our_group tool command).hooks ≡ false
    only Tool.claude e = rw e refl
    only Tool.codex e = rw e refl
