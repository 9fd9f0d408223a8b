-- ===== src/Projects/Changes.antt =====
-- What the calls on projects keep.
use promptlens_v.Prelude.{
  ℕ, ◌≡◌, refl, sym, String, Bool, true, false, not, ◌&&◌, Option, none, some, List, [], ◌∷◌, ◌++◌,
  arith, any, change, All, inl, inr, ◌==◌, String_eq, ℕ_eq, nat_eq_iff, is_some, Bool-cases, ◌⊎◌,
  Option-cases, subst,
}
use promptlens_v.Store.{Prisma}
use promptlens_v.Schema.{Db, Project, ProjectStatus}
use promptlens_v.Actor.{AuthenticatedActor}
use promptlens_v.Projects.{
  CreateProjectRequest, UpdateProjectRequest, may_write, clashes, new_project, existing, renamed,
  described, shelved, updated, create_project_body, create_project, update_project_body,
  update_project,
}
use promptlens_v.Projects.Clashes.{
  NoClash, All-append_one, NoClash-append, NoClash-change, rows-Clear,
}

abbrev pub is_archived : ProjectStatus → Bool
is_archived ProjectStatus.active = false
is_archived ProjectStatus.archived = true

-- A project that is archived has the time of it, and one that is not has none.
abbrev pub IsShelved : Project → Type 0
IsShelved p = is_some p.archived_at ≡ is_archived p.status

abbrev pub IsValid : Db → Type 0
IsValid s = NoClash s.projects × All IsShelved s.projects

All-change :
    (P : Project → Type 0) (sel : Project → Bool) (f : Project → Project) (rows : List Project)
    → ((p : Project) → P p → P (f p))
    → All P rows
    → All P (change sel f rows)
All-change P sel f [] keeps h = tt
All-change P sel f (p ∷ rows) keeps (hp, h) = elim (Bool-cases (sel p)) [
  | inl here ↦ rw here (keeps p hp, All-change P sel f rows keeps h)
  | inr gone ↦ rw gone (hp, All-change P sel f rows keeps h)
]

updated-IsShelved :
    (input : UpdateProjectRequest) (now : ℕ) (p : Project)
    → IsShelved p
    → IsShelved (updated input now p)
updated-IsShelved input now p h =
    shelved_keeps input.archived now (described input.description (renamed input.name p))
      (described_keeps input.description (renamed input.name p) (renamed_keeps input.name p h))
  where
    renamed_keeps : (name : Option String) (p : Project) → IsShelved p → IsShelved (renamed name p)
    renamed_keeps none p h = h
    renamed_keeps (some name) p h = h

    described_keeps : (t : Option String) (p : Project) → IsShelved p → IsShelved (described t p)
    described_keeps none p h = h
    described_keeps (some t) p h = h

    shelved_keeps :
        (a : Option Bool) (now : ℕ) (p : Project) → IsShelved p → IsShelved (shelved a now p)
    shelved_keeps none now p h = h
    shelved_keeps (some true) now p h = refl
    shelved_keeps (some false) now p h = refl

-- A call on projects.
pub data ProjectCall : Type 0 where
  creation : (id : ℕ) → CreateProjectRequest → ProjectCall
  change_of : (project_id now : ℕ) → UpdateProjectRequest → ProjectCall

same_id : (n : ℕ) (r q : Project) → (r.id == n) ≡ true → (q.id == n) ≡ true → clashes r q ≡ true
same_id n r q h g = ground (arith, nat_eq_iff r.id n, nat_eq_iff q.id n, nat_eq_iff r.id q.id)

module _ (db : Prisma) where
  pub after_call : AuthenticatedActor → ProjectCall → Db → Db
  after_call actor (ProjectCall.creation id input) s = (create_project db actor id input s).1
  after_call actor (ProjectCall.change_of n now input) s = (update_project db actor n now input s).1

  -- The projects after a creation: a new row, or the rows that were there.
  create_project_rows :
      (actor : AuthenticatedActor) (id : ℕ) (input : CreateProjectRequest) (s : Db)
      → ((create_project db actor id input s).1 ≡ s)
        ⊎ ((any (clashes (new_project actor id input)) s.projects ≡ false)
            × ((create_project db actor id input s).1
                ≡ record s { projects = s.projects ++ new_project actor id input ∷ [] }))
  unfolding create_project create_project_body
  create_project_rows actor id input s =
      let body = db.transaction_lem (create_project_body db actor id input) s in
      let row = db.create_lem clashes (new_project actor id input) s.projects in
      elim (Bool-cases (may_write actor.role)) [
        | inr reader ↦ inl (ground arith)
        | inl writer ↦ elim (Bool-cases (any (clashes (new_project actor id input)) s.projects)) [
          | inl taken ↦ inl (ground (arith, body, row))
          | inr new ↦ inr (new, ground (arith, body, row))
        ]
      ]

  -- The projects after an update: the rows of that id changed, or the rows that were there.
  update_project_rows :
      (actor : AuthenticatedActor) (n now : ℕ) (input : UpdateProjectRequest) (s : Db)
      → let sel : Project → Bool = λ q. q.id == n in
        ((update_project db actor n now input s).1 ≡ s)
        ⊎ ((any
                (λ r. sel r && any (λ q. not (sel q) && clashes (updated input now r) q) s.projects)
                s.projects
              ≡ false)
            × ((update_project db actor n now input s).1
                ≡ record s { projects = change sel (updated input now) s.projects }))
  unfolding update_project update_project_body
  update_project_rows actor n now input s =
      let sel : Project → Bool = λ q. q.id == n in
      let body = db.transaction_lem (update_project_body db actor n now input) s in
      let row = db.update_unique_lem clashes sel (updated input now) s.projects in
      elim (Bool-cases (may_write actor.role)) [
        | inr reader ↦ inl (ground arith)
        | inl writer ↦ elim (Option-cases (db.find_first (existing actor n) s.projects)) [
          | inl missing ↦ inl (ground (arith, body))
          | inr (p, found) ↦
              elim (Bool-cases (
                any
                  (λ r.
                    sel r && any (λ q. not (sel q) && clashes (updated input now r) q) s.projects)
                  s.projects)) [
                    | inl taken ↦ inl (ground (arith, body, row))
                    | inr new ↦ elim (Bool-cases (any sel s.projects)) [
                      | inl there ↦ inr (new, ground (arith, body, row))
                      | inr gone ↦ inl (ground (arith, body, row))
                    ]
                  ]
        ]
      ]

  -- Whatever the calls that members make on projects, no two projects come to have one id or, in one
  -- workspace, one name, and a project is archived exactly where it has the time of its archiving.
  pub after_call-IsValid :
      (actor : AuthenticatedActor) (call : ProjectCall) (s : Db)
      → IsValid s
      → IsValid (after_call actor call s)
  unfolding after_call
  after_call-IsValid actor (ProjectCall.creation id input) s (clear, kept) =
      elim (create_project_rows actor id input s) [
        | inl e ↦ subst IsValid (sym e) (clear, kept)
        | inr (new, e) ↦ subst IsValid (sym e) (
          NoClash-append s.projects (new_project actor id input) clear new,
          All-append_one IsShelved s.projects (new_project actor id input) kept refl,
        )
      ]
  after_call-IsValid actor (ProjectCall.change_of n now input) s (clear, kept) =
      let sel : Project → Bool = λ q. q.id == n in
      elim (update_project_rows actor n now input s) [
        | inl e ↦ subst IsValid (sym e) (clear, kept)
        | inr (new, e) ↦ subst IsValid (sym e) (
          NoClash-change sel (updated input now) (same_id n) s.projects s.projects
              (rows-Clear sel (updated input now) s.projects new) (λ q i. i) clear,
          All-change IsShelved sel (updated input now) s.projects (updated-IsShelved input now)
              kept,
        )
      ]
