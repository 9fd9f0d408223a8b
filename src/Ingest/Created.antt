-- ===== src/Ingest/Created.antt =====
-- What an ingestion writes.
use promptlens_v.Prelude.{
  ◌≡◌, true, false, some, [], ◌∷◌, ◌++◌, arith, Option-cases, inl, inr, any, In, String_eq,
}
use promptlens_v.Store.{Prisma, ok, insert, Result-cases}
use promptlens_v.Schema.{Db, Project, ProjectStatus}
use promptlens_v.Actor.{AuthenticatedConnector}
use promptlens_v.Device.{never}
use promptlens_v.Ingest.{
  Texts, Ids, IngestPromptRequest, PromptResponse, new_prompt, original_version, new_analysis,
  new_event, tag_all, normalized_tags, create_prompt, created_response, usable_project,
  prompt_clash,
}
use promptlens_v.Ingest.Tags.{tag_all_frame}

usable_facts :
    (connector : AuthenticatedConnector) (input : IngestPromptRequest) (p : Project)
    → usable_project connector input p ≡ true
    → (p.id ≡ input.project_id)
      × (p.tenant_id ≡ connector.tenant_id)
      × (p.status ≡ ProjectStatus.active)
usable_facts connector input p h = ground arith

module _ (db : Prisma) (texts : Texts) where
  -- What a transaction that creates a prompt has found and written.
  pub record Created (connector : AuthenticatedConnector) (input : IngestPromptRequest) (ids : Ids)
      (s s' : Db) (r : PromptResponse) : Type 0 where
    pub project : Project
    pub listed : In project s.projects
    pub wanted : project.id ≡ input.project_id
    pub same_tenant : project.tenant_id ≡ connector.tenant_id
    pub open_project : project.status ≡ ProjectStatus.active
    pub unique :
        any (prompt_clash (new_prompt db texts connector input project ids)) s.prompts ≡ false
    pub answer : r ≡ created_response db texts input project ids
    pub after : s' ≡ record s {
      prompts = s.prompts ++ new_prompt db texts connector input project ids ∷ [];
      prompt_versions = s.prompt_versions ++ original_version db texts connector input ids ∷ [];
      tags = s'.tags;
      prompt_tags = s'.prompt_tags;
      analyses = s.analyses ++ new_analysis db texts connector ids ∷ [];
      outbox = s.outbox ++ new_event db texts connector ids ∷ [];
    }

  module _ (connector : AuthenticatedConnector) (input : IngestPromptRequest) (ids : Ids)
      (s s' : Db) (r : PromptResponse) (p : Project) where
    -- The state when the tags are about to be written.
    stored : Db
    stored = record s {
      prompts = s.prompts ++ new_prompt db texts connector input p ids ∷ [];
      prompt_versions = s.prompt_versions ++ original_version db texts connector input ids ∷ [];
    }

    create_prompt_inv :
        db.find_first (usable_project connector input) s.projects ≡ some p
        → create_prompt db texts connector input ids s ≡ ok (r, s')
        → (s1 : Db) × (tag_all db texts connector ids 0 (normalized_tags db texts input.tags) stored
            ≡ ok (tt, s1))
          × (any (prompt_clash (new_prompt db texts connector input p ids)) s.prompts ≡ false)
          × (r ≡ created_response db texts input p ids)
          × (s' ≡ record s1 {
            analyses = s1.analyses ++ new_analysis db texts connector ids ∷ [];
            outbox = s1.outbox ++ new_event db texts connector ids ∷ [];
          })
    unfolding create_prompt stored
    create_prompt_inv found h =
        elim (Result-cases
          (tag_all db texts connector ids 0 (normalized_tags db texts input.tags) stored)) [
            | inr (e, q) ↦ absurd (ground (arith, prompt_lem, version_lem))
            | inl ((u, s1), q) ↦
                let analysis_lem =
                  db.create_lem never (new_analysis db texts connector ids) s1.analyses in
                let event_lem = db.create_lem never (new_event db texts connector ids) s1.outbox in
                (
                  s1,
                  q,
                  ground (arith, prompt_lem, version_lem),
                  ground (arith, prompt_lem, version_lem, analysis_lem, event_lem),
                  ground (arith, prompt_lem, version_lem, analysis_lem, event_lem),
                )
          ]
      where
        prompt_lem :
            db.create prompt_clash (new_prompt db texts connector input p ids) s.prompts
            ≡ insert prompt_clash (new_prompt db texts connector input p ids) s.prompts
        prompt_lem = db.create_lem _ _ _

        version_lem :
            db.create never (original_version db texts connector input ids) s.prompt_versions
            ≡ insert never (original_version db texts connector input ids) s.prompt_versions
        version_lem = db.create_lem _ _ _

    Created-from :
        db.find_first (usable_project connector input) s.projects ≡ some p
        → create_prompt db texts connector input ids s ≡ ok (r, s')
        → Created connector input ids s s' r
    unfolding stored
    Created-from found h =
        let (s1, tagged, free, answer, after) = create_prompt_inv found h in
        let (fits, listed) = db.found _ s.projects p found in
        let (wanted, same_tenant, open_project) = usable_facts connector input p fits in
        let frame = tag_all_frame db texts connector ids 0 _ stored s1 tagged in
        record {
          project = p;
          listed = listed;
          wanted = wanted;
          same_tenant = same_tenant;
          open_project = open_project;
          unique = free;
          answer = answer;
          after = ground arith;
        }

  -- A prompt is created only for an active project of the connector's workspace with the id that was
  -- asked for, and only under an event that the installation has not used; one prompt, its original
  -- version, one queued analysis and one outbox event that names both are written, and besides these
  -- only the tag tables change.
  pub create_prompt-Created :
      (connector : AuthenticatedConnector) (input : IngestPromptRequest) (ids : Ids) (s s' : Db)
      (r : PromptResponse)
      → create_prompt db texts connector input ids s ≡ ok (r, s')
      → Created connector input ids s s' r
  create_prompt-Created connector input ids s s' r h =
      elim (Option-cases (db.find_first (usable_project connector input) s.projects)) [
        | inl e ↦ absurd (unfold create_prompt in ground arith)
        | inr (p, e) ↦ Created-from connector input ids s s' r p e h
      ]
