-- ===== src/Tenancy/Refinement.antt =====
-- An operation under the tenant context against the same operation on a database of its own.
use promptlens_v.Prelude.{
  ◌≡◌, refl, sym, ap, ◌∙◌, subst, Bool, true, false, not, ◌||◌, ◌==◌, ℕ_eq, none, some,
  Option-cases, List, keep, arith, inl, inr, ◌⊎◌,
}
use promptlens_v.Store.{Prisma, Error, Result, ok, err, commit}
use promptlens_v.Schema.{Db}
use promptlens_v.Tenancy.{
  Secured, Row, table, SessionConfig, DatabaseActorContext, DatabaseRole, using_policy,
  check_policy, Statement, Answer, Program, perform, run_program, set_config, with_tenant_context,
}
use promptlens_v.Tenancy.Rows.{perform-Sliced}
use promptlens_v.Tenancy.Slice.{slice, rows-slice, slice-with_rows, with_rows_same}

-- What WITH CHECK lets be written, USING lets be seen.
check_seen :
    (c : SessionConfig) (n : Secured) (r : Row n)
    → check_policy c n r ≡ true
    → using_policy c n r ≡ true
unfolding check_policy using_policy
check_seen c Secured.memberships r h = ground arith
check_seen c Secured.projects r h = h
check_seen c Secured.connector_installations r h = h
check_seen c Secured.prompts r h = h
check_seen c Secured.prompt_versions r h = h
check_seen c Secured.tags r h = h
check_seen c Secured.prompt_tags r h = h
check_seen c Secured.analyses r h = h
check_seen c Secured.usage_records r h = h
check_seen c Secured.audit_events r h = h
check_seen c Secured.outbox_events r h = h
check_seen c Secured.support_grants r h = h

-- A statement that fails ends the operation; one that succeeds hands its answer on.
module _ (seen checked : (n : Secured) → Row n → Bool) {A : Type 0} (n : Secured)
    (statement : Statement (Row n)) (next : Answer (Row n) → Program A) (s : Db) where
  run_fails :
      (e : Error)
      → perform (seen n) (checked n) statement ((table n).rows s) ≡ err e
      → run_program seen checked (Program.call n statement next) s ≡ err e
  unfolding run_program
  run_fails e h = rw (run_program, h) refl

  run_goes_on :
      (answer : Answer (Row n)) (rows : List (Row n))
      → perform (seen n) (checked n) statement ((table n).rows s) ≡ ok (answer, rows)
      → run_program seen checked (Program.call n statement next) s
        ≡ run_program seen checked (next answer) ((table n).with_rows rows s)
  unfolding run_program
  run_goes_on answer rows h = rw (run_program, h) refl

module _ (seen checked : (n : Secured) → Row n → Bool)
    (sound : (n : Secured) (r : Row n) → checked n r ≡ true → seen n r ≡ true) where
  abbrev pub everything : (n : Secured) → Row n → Bool
  everything n r = true

  abbrev pub unseen : (n : Secured) → Row n → Bool
  unseen n r = not (seen n r)

  -- The operation ends alike on the whole database and on its slice.
  abbrev Alike : {A : Type 0} → Program A → Db → Type 0
  Alike {A} program s =
      ((e : Error) × (run_program seen checked program s ≡ err e)
        × (run_program everything checked program (slice seen s) ≡ err e))
      ⊎ ((a : A) × (s' : Db) × (run_program seen checked program s ≡ ok (a, s'))
          × (run_program everything checked program (slice seen s) ≡ ok (a, slice seen s'))
          × (slice unseen s' ≡ slice unseen s))

  unseen_same :
      (n : Secured) (s : Db) (rows : List (Row n))
      → keep (unseen n) rows ≡ keep (unseen n) ((table n).rows s)
      → slice unseen ((table n).with_rows rows s) ≡ slice unseen s
  unseen_same n s rows e =
      slice-with_rows unseen n rows s
      ∙ ap (λ rs. (table n).with_rows rs (slice unseen s)) (e ∙ sym (rows-slice unseen n s))
      ∙ with_rows_same n (slice unseen s)

  alike : {A : Type 0} (program : Program A) (s : Db) → Alike program s
  unfolding run_program
  alike (Program.give a) s = inr (a, s, refl, refl, refl)
  alike (Program.fail e) s = inl (e, refl, refl)
  alike (Program.call n statement next) s =
      let at_slice = ap (perform (everything n) (checked n) statement) (rows-slice seen n s) in
      elim (perform-Sliced (seen n) (checked n) (sound n) statement ((table n).rows s)) [
        | inl (e, whole, sliced) ↦ inl (
          e,
          run_fails seen checked n statement next s e whole,
          run_fails everything checked n statement next (slice seen s) e (at_slice ∙ sliced),
        )
        | inr (answer, rows, whole, sliced, same) ↦
            let s1 = (table n).with_rows rows s in
            let first = run_goes_on seen checked n statement next s answer rows whole in
            let second =
              run_goes_on everything checked n statement next (slice seen s) answer
                (keep (seen n) rows) (at_slice ∙ sliced)
              ∙ ap (run_program everything checked (next answer))
                  (sym (slice-with_rows seen n rows s)) in
            elim (alike (next answer) s1) [
              | inl (e, whole', sliced') ↦ inl (e, first ∙ whole', second ∙ sliced')
              | inr (a, s', whole', sliced', same') ↦
                  inr (a, s', first ∙ whole', second ∙ sliced', same' ∙ unseen_same n s rows same)
            ]
      ]

-- Whose a row is, told without the policies: the rows of the workspace, the memberships of the user
-- himself in any workspace, and for the worker all events of the outbox.
pub is_own : DatabaseActorContext → DatabaseRole → (n : Secured) → Row n → Bool
is_own context role Secured.memberships r =
    r.tenant_id == context.tenant_id || r.user_id == context.user_id
is_own context role Secured.projects r = r.tenant_id == context.tenant_id
is_own context role Secured.connector_installations r = r.tenant_id == context.tenant_id
is_own context role Secured.prompts r = r.tenant_id == context.tenant_id
is_own context role Secured.prompt_versions r = r.tenant_id == context.tenant_id
is_own context role Secured.tags r = r.tenant_id == context.tenant_id
is_own context role Secured.prompt_tags r = r.tenant_id == context.tenant_id
is_own context role Secured.analyses r = r.tenant_id == context.tenant_id
is_own context role Secured.usage_records r = r.tenant_id == context.tenant_id
is_own context role Secured.audit_events r = elim r.tenant_id [
  | none ↦ false
  | some n ↦ n == context.tenant_id
]
is_own context DatabaseRole.promptlens_api Secured.outbox_events r =
    r.tenant_id == context.tenant_id
is_own context DatabaseRole.promptlens_worker Secured.outbox_events r = true
is_own context role Secured.support_grants r = r.tenant_id == context.tenant_id

-- What may be written: the own rows, but for memberships in other workspaces.
pub is_writable : DatabaseActorContext → DatabaseRole → (n : Secured) → Row n → Bool
is_writable context role Secured.memberships r = r.tenant_id == context.tenant_id
is_writable context role n r = is_own context role n r

using_own :
    (context : DatabaseActorContext) (role : DatabaseRole) (n : Secured) (r : Row n)
    → using_policy (set_config context role) n r ≡ is_own context role n r
unfolding using_policy set_config is_own
using_own context role Secured.memberships r = refl
using_own context role Secured.projects r = refl
using_own context role Secured.connector_installations r = refl
using_own context role Secured.prompts r = refl
using_own context role Secured.prompt_versions r = refl
using_own context role Secured.tags r = refl
using_own context role Secured.prompt_tags r = refl
using_own context role Secured.analyses r = refl
using_own context role Secured.usage_records r = refl
using_own context role Secured.audit_events r = elim (Option-cases r.tenant_id) [
  | inl e ↦ rw e refl
  | inr (n, e) ↦ rw e refl
]
using_own context DatabaseRole.promptlens_api Secured.outbox_events r = ground arith
using_own context DatabaseRole.promptlens_worker Secured.outbox_events r = ground arith
using_own context role Secured.support_grants r = refl

check_own :
    (context : DatabaseActorContext) (role : DatabaseRole) (n : Secured) (r : Row n)
    → check_policy (set_config context role) n r ≡ is_writable context role n r
unfolding check_policy using_policy set_config is_writable is_own
check_own context role Secured.memberships r = refl
check_own context role Secured.projects r = refl
check_own context role Secured.connector_installations r = refl
check_own context role Secured.prompts r = refl
check_own context role Secured.prompt_versions r = refl
check_own context role Secured.tags r = refl
check_own context role Secured.prompt_tags r = refl
check_own context role Secured.analyses r = refl
check_own context role Secured.usage_records r = refl
check_own context role Secured.audit_events r = using_own context role Secured.audit_events r
check_own context role Secured.outbox_events r = using_own context role Secured.outbox_events r
check_own context role Secured.support_grants r = refl

-- A database of its own: no row is hidden, and rows that may not be written are refused.
pub run_alone :
    (checked : (n : Secured) → Row n → Bool) → {A : Type 0} → Program A → Db → Result A × Db
run_alone checked program s = commit s (run_program (λ n r. true) checked program s)

-- The operation on the whole database and on the slice of what it sees.
abbrev pub Refines :
    (seen checked : (n : Secured) → Row n → Bool)
    → {A : Type 0} → Program A
    → Db
    → Result A × Db
    → Type 0
Refines seen checked operation s under =
    (under.0 ≡ (run_alone checked operation (slice seen s)).0)
    × (slice seen under.1 ≡ (run_alone checked operation (slice seen s)).1)
    × (slice (λ n r. not (seen n r)) under.1 ≡ slice (λ n r. not (seen n r)) s)

context-Refines :
    (db : Prisma) (role : DatabaseRole) (context : DatabaseActorContext) {A : Type 0}
    (operation : Program A) (s : Db)
    → let c = set_config context role in
      Refines
        (using_policy c)
        (check_policy c)
        operation
        s
        (with_tenant_context db role context operation s)
unfolding with_tenant_context run_alone
context-Refines db role context operation s =
    let c = set_config context role in
    rw (with_tenant_context, db.transaction_lem)
      (elim (alike (using_policy c) (check_policy c) (check_seen c) operation s) [
        | inl (e, whole, sliced) ↦ rw (whole, sliced) (refl, refl, refl)
        | inr (a, s', whole, sliced, same) ↦ rw (whole, sliced) (refl, refl, same)
      ])

-- An operation under the tenant context refines the same operation on a database that holds the
-- context's own rows only: those of the workspace, the user's memberships elsewhere and, for the
-- worker, the whole outbox; that database refuses to write rows of other workspaces, but for the
-- worker's events. It gives the same answer or error, leaves the own rows as that database does, and
-- leaves all rows that are not the context's own as they were.
pub with_tenant_context-run_alone :
    (db : Prisma) (role : DatabaseRole) (context : DatabaseActorContext) {A : Type 0}
    (operation : Program A) (s : Db)
    → Refines
        (is_own context role)
        (is_writable context role)
        operation
        s
        (with_tenant_context db role context operation s)
with_tenant_context-run_alone db role context operation s =
    subst
      (λ f.
        Refines f (is_writable context role) operation s
          (with_tenant_context db role context operation s))
      (λ i n r. using_own context role n r i)
      (subst
        (λ f.
          Refines (using_policy (set_config context role)) f operation s
            (with_tenant_context db role context operation s))
        (λ i n r. check_own context role n r i) (context-Refines db role context operation s))
