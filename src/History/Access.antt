-- ===== src/History/Access.antt =====
-- What the history lets an actor do with a prompt.
use promptlens_v.Prelude.{
  ℕ, List, ◌≡◌, refl, ap, ◌∙◌, Bool, true, false, [], ◌∷◌, ◌++◌, arith, inl, inr, count, change,
  any, In, Bool-cases, Option-cases, nat_eq_iff, ℕ_eq, is_none,
}
use promptlens_v.Store.{Prisma, ok, err, not_found, committed}
use promptlens_v.Schema.{Db, Prompt, AnalysisStatus}
use promptlens_v.Schema.Enums.{is_viewer}
use promptlens_v.Actor.{AuthenticatedActor}
use promptlens_v.Admin.{is_tenant_admin}
use promptlens_v.History.{
  prompt_scope, visible, active_analysis, queued_analysis, analysis_event, removed_at, fresh,
  reanalyze_body, reanalyze, delete_prompt_body, delete_prompt,
}

-- An actor sees a prompt that is his own, or any prompt of his workspace as its owner or admin.
pub visible_own :
    (actor : AuthenticatedActor) (n : ℕ) (p : Prompt)
    → visible actor n p ≡ true
    → (p.id ≡ n)
      × (p.tenant_id ≡ actor.tenant_id)
      × (is_none p.deleted_at ≡ true)
      × (is_tenant_admin actor.role ≡ false → p.user_id ≡ actor.user_id)
unfolding visible prompt_scope
visible_own actor n p h = (
  ground (arith, nat_eq_iff p.id n),
  ground (arith, nat_eq_iff p.tenant_id actor.tenant_id),
  ground arith,
  λ plain. ground (arith, nat_eq_iff p.user_id actor.user_id),
)

-- What a new analysis that is accepted found, and what it did.
pub record Reanalysis (actor : AuthenticatedActor) (n id event now : ℕ) (s s' : Db) : Type 0 where
  pub prompt : Prompt
  pub there : In prompt s.prompts
  pub seen : visible actor n prompt ≡ true
  pub idle : any (active_analysis n) s.analyses ≡ false
  pub after : s' ≡ record s {
    analyses = s.analyses ++ queued_analysis actor n id now ∷ [];
    outbox = s.outbox ++ analysis_event actor n id event now ∷ [];
  }

module _ (db : Prisma) where
  reanalyze_inv :
      (actor : AuthenticatedActor) (n id event now : ℕ) (s s' : Db)
      → reanalyze_body db actor n id event now s ≡ ok ((id, AnalysisStatus.queued), s')
      → Reanalysis actor n id event now s s'
  unfolding reanalyze_body
  reanalyze_inv actor n id event now s s' h =
      elim (Option-cases (db.find_first (visible actor n) s.prompts)) [
        | inl e ↦ absurd (ground arith)
        | inr (p, e) ↦ elim (Option-cases (db.find_first (active_analysis n) s.analyses)) [
          | inr (a, e1) ↦ absurd (ground arith)
          | inl e1 ↦
              let f = db.found (visible actor n) s.prompts p e in
              record {
                prompt = p;
                there = f.1;
                seen = f.0;
                idle = db.missed (active_analysis n) s.analyses e1;
                after = ground (
                  arith,
                  db.create_lem fresh (queued_analysis actor n id now) s.analyses,
                  db.create_lem fresh (analysis_event actor n id event now) s.outbox,
                );
              }
        ]
      ]

  -- A new analysis is accepted only for a prompt that the actor sees and that has no analysis
  -- queued or running; it adds one queued analysis and its outbox event, and changes nothing else.
  pub reanalyze-Reanalysis :
      (actor : AuthenticatedActor) (n id event now : ℕ) (s : Db)
      → (reanalyze db actor n id event now s).0 ≡ ok (id, AnalysisStatus.queued)
      → (is_viewer actor.role ≡ false)
        × Reanalysis actor n id event now s (reanalyze db actor n id event now s).1
  unfolding reanalyze
  reanalyze-Reanalysis actor n id event now s h = elim (Bool-cases (is_viewer actor.role)) [
    | inl viewer ↦ absurd (ground arith)
    | inr writer ↦ (
      writer,
      rw (reanalyze, writer, db.transaction_lem)
          (reanalyze_inv actor n id event now s _ (
            committed s (reanalyze_body db actor n id event now s) (id, AnalysisStatus.queued)
              (rw (reanalyze, writer, db.transaction_lem) at h))),
    )
  ]

count-change_out :
    {R : Type 0} (p : R → Bool) (f : R → R) (rows : List R)
    → ((x : R) → p (f x) ≡ false)
    → count p (change p f rows) ≡ 0
count-change_out p f [] out = refl
count-change_out p f (x ∷ rows) out = ground (arith, out x, count-change_out p f rows out)

removed_hidden :
    (actor : AuthenticatedActor) (n now : ℕ) (p : Prompt)
    → visible actor n (removed_at now p) ≡ false
unfolding visible
removed_hidden actor n now p = ground arith

module _ (db : Prisma) where
  deleted_prompts :
      (actor : AuthenticatedActor) (n now : ℕ) (s s' : Db)
      → delete_prompt_body db actor n now s ≡ ok (tt, s')
      → s'.prompts ≡ change (visible actor n) (removed_at now) s.prompts
  unfolding delete_prompt_body
  deleted_prompts actor n now s s' h =
      ground (arith, db.update_many_lem (visible actor n) (removed_at now) s.prompts)

  none_left :
      (actor : AuthenticatedActor) (n later : ℕ) (s : Db)
      → count (visible actor n) s.prompts ≡ 0
      → delete_prompt_body db actor n later s ≡ err (not_found "Prompt not found.")
  unfolding delete_prompt_body
  none_left actor n later s h =
      ground (arith, db.update_many_lem (visible actor n) (removed_at later) s.prompts)

  -- A prompt is deleted once: after a deletion that succeeds a second one by the same actor finds no
  -- prompt and changes nothing.
  pub delete_prompt_once :
      (actor : AuthenticatedActor) (n now later : ℕ) (s : Db)
      → (delete_prompt db actor n now s).0 ≡ ok tt
      → let s1 = (delete_prompt db actor n now s).1 in
        delete_prompt db actor n later s1 ≡ (err (not_found "Prompt not found."), s1)
  unfolding delete_prompt
  delete_prompt_once actor n now later s h = elim (Bool-cases (is_viewer actor.role)) [
    | inl viewer ↦ absurd (ground arith)
    | inr writer ↦
        let e = deleted_prompts actor n now s (delete_prompt db actor n now s).1 (
          rw (delete_prompt, writer, db.transaction_lem)
            (committed s (delete_prompt_body db actor n now s) tt
              (rw (delete_prompt, writer, db.transaction_lem) at h))) in
        ground (
          arith,
          db.transaction_lem (delete_prompt_body db actor n later)
              (delete_prompt db actor n now s).1,
          none_left actor n later (delete_prompt db actor n now s).1 (
              ap (count (visible actor n)) e
              ∙ count-change_out (visible actor n) (removed_at now) s.prompts
                  (removed_hidden actor n now)),
        )
  ]
