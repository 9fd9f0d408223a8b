-- ===== src/Ingest/Tags.antt =====
-- The tags of an ingested prompt touch the two tag tables alone.
use promptlens_v.Prelude.{
  ℕ, suc, String, ◌≡◌, ◌∙◌, ap, List, [], ◌∷◌, arith, inl, inr, ℕ_eq, String_eq,
}
use promptlens_v.Store.{Prisma, ok, Result-cases}
use promptlens_v.Schema.{Db, Tag, PromptTag}
use promptlens_v.Actor.{AuthenticatedConnector}
use promptlens_v.Ingest.{Texts, Ids, upsert_tag, tag_prompt, tag_all}

-- The state with new tag tables.
abbrev pub with_tags : Db → List Tag → List PromptTag → Db
with_tags s ts pts = record s { tags = ts; prompt_tags = pts }

module _ (db : Prisma) (texts : Texts) where
  tag_prompt_frame :
      (connector : AuthenticatedConnector) (ids : Ids) (i : ℕ) (name : String) (s s' : Db)
      → tag_prompt db texts connector ids i name s ≡ ok (tt, s')
      → s' ≡ with_tags s s'.tags s'.prompt_tags
  unfolding tag_prompt upsert_tag
  tag_prompt_frame connector ids i name s s' h = ground arith

  -- Tagging changes the tables `tags` and `prompt_tags` alone.
  pub tag_all_frame :
      (connector : AuthenticatedConnector) (ids : Ids) (i : ℕ) (names : List String) (s s' : Db)
      → tag_all db texts connector ids i names s ≡ ok (tt, s')
      → s' ≡ with_tags s s'.tags s'.prompt_tags
  unfolding tag_all
  tag_all_frame connector ids i [] s s' h = ground arith
  tag_all_frame connector ids i (name ∷ names) s s' h =
      elim (Result-cases (tag_prompt db texts connector ids i name s)) [
        | inl ((u, s1), q) ↦
            tag_all_frame connector ids (suc i) names s1 s' (ground arith)
            ∙ ap (λ x. with_tags x s'.tags s'.prompt_tags)
                (tag_prompt_frame connector ids i name s s1 q)
        | inr (e, q) ↦ absurd (ground arith)
      ]
