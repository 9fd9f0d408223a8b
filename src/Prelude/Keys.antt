-- ===== src/Prelude/Keys.antt =====
-- Columns that tell the rows of a table apart.
use mathlib.Core.Path.{◌≡◌, sym, ap, ◌∙◌}
use mathlib.Core.Logic.{◌≢◌, inl, inr}
use mathlib.Core.Bool.{Bool}
use mathlib.Core.List.{List, [], ◌∷◌, ◌++◌}
use promptlens_v.Prelude.Tests.{if◌then◌else◌}
use promptlens_v.Prelude.Lists.{In, change, In-change, In-append_one}

abbrev pub IsKey : {R K : Type 0} → (R → K) → List R → Type 0
IsKey {R} key rows = (x y : R) → In x rows → In y rows → key x ≡ key y → x ≡ y

-- A field that tells rows apart still does after a change that keeps it, and after an insertion of
-- a row with a new value.
module _ {R K : Type 0} (key : R → K) (rows : List R) (keyed : IsKey key rows) where
  pub keyed_change :
      (p : R → Bool) (f : R → R)
      → ((x : R) → In x rows → key (if p x then f x else x) ≡ key x)
      → IsKey key (change p f rows)
  keyed_change p f kept x y i j e =
      let (x', i', ex) = In-change p f x rows i in
      let (y', j', ey) = In-change p f y rows j in
      let one : x' ≡ y' =
        keyed x' y' i' j' (sym (kept x' i') ∙ ap key ex ∙ e ∙ sym (ap key ey) ∙ kept y' j') in
      sym ex ∙ ap (λ z. if p z then f z else z) one ∙ ey

  pub keyed_append : (a : R) → ((x : R) → In x rows → key a ≢ key x) → IsKey key (rows ++ a ∷ [])
  keyed_append a new x y i j e = elim (In-append_one x a rows i) [
    | inl old_x ↦ elim (In-append_one y a rows j) [
      | inl old_y ↦ keyed x y old_x old_y e
      | inr is_y ↦ absurd (new x old_x (ap key is_y ∙ sym e))
    ]
    | inr is_x ↦ elim (In-append_one y a rows j) [
      | inl old_y ↦ absurd (new y old_y (ap key is_x ∙ e))
      | inr is_y ↦ sym is_x ∙ is_y
    ]
  ]

-- Any column is a key of a table of one row.
pub IsKey-one : {R K : Type 0} (key : R → K) (a : R) → IsKey key (a ∷ [])
IsKey-one key a x y (inl e) (inl e') h = sym e ∙ e'
IsKey-one key a x y (inr i) j h = absurd i
IsKey-one key a x y (inl e) (inr j) h = absurd j
