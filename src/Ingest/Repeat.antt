-- ===== src/Ingest/Repeat.antt =====
-- One call of `PromptsService.ingest`, and the same event sent again.
use promptlens_v.Prelude.{
  ◌≡◌, ◌≤◌, refl, sym, ◌∙◌, ap, subst, Bool, true, false, some, arith, Option-cases, inl, inr, any,
  In, ◌+◌, ◌*◌, nat_eq_iff, String_eq, ℕ_eq, ◌==◌, ◌⊎◌, In-append_one, In-append_last, any_of_In,
  false_of_In,
}
use promptlens_v.Store.{Prisma, Result, ok, err, commit}
use promptlens_v.Schema.{Db, Project, Prompt, Analysis}
use promptlens_v.Actor.{AuthenticatedConnector}
use promptlens_v.Ingest.{
  Texts, Ids, IngestPromptRequest, PromptResponse, new_prompt, new_analysis, created_response,
  prompt_clash, event_of, hash_differs, repeated, repeat_prompt, on_duplicate, ingest_body,
  ingest_once,
}
use promptlens_v.Ingest.Created.{Created, create_prompt-Created}

module _ (db : Prisma) (texts : Texts) where
  -- The event is there with an analysis, under the same hash or none.
  pub record Repeats (connector : AuthenticatedConnector) (input : IngestPromptRequest) (s : Db)
      (r : PromptResponse) : Type 0 where
    pub prompt : Prompt
    pub analysis : Analysis
    pub listed : In prompt s.prompts
    pub same_event : event_of connector input prompt ≡ true
    pub analysed : In analysis s.analyses
    pub of_prompt : analysis.prompt_id ≡ prompt.id
    pub same_hash : hash_differs prompt.client_event_hash (texts.event_hash input) ≡ false
    pub answer : r ≡ repeated db texts prompt analysis

  module _ (connector : AuthenticatedConnector) (input : IngestPromptRequest) (ids : Ids) where
    repeat_from :
        (s s' : Db) (r : PromptResponse) (p : Prompt)
        → db.find_first (event_of connector input) s.prompts ≡ some p
        → on_duplicate db texts connector input ids (some p) s ≡ ok (r, s')
        → Created db texts connector input ids s s' r ⊎ Repeats connector input s r × (s' ≡ s)
    unfolding on_duplicate
    repeat_from s s' r p found h =
        elim (Option-cases (db.find_first (λ (a : Analysis). a.prompt_id == p.id) s.analyses)) [
          | inl e ↦ inl (create_prompt-Created db texts connector input ids s s' r (ground arith))
          | inr (a, e) ↦
              let (named, analysed) = db.found _ s.analyses a e in
              let (event, listed) = db.found _ s.prompts p found in
              unfold repeat_prompt in
              inr (
                record {
                  prompt = p;
                  analysis = a;
                  listed = listed;
                  same_event = event;
                  analysed = analysed;
                  of_prompt = (nat_eq_iff _ _).0 named;
                  same_hash = ground arith;
                  answer = ground arith;
                },
                ground arith,
              )
        ]

    body_cases :
        (s s' : Db) (r : PromptResponse)
        → ingest_body db texts connector input ids s ≡ ok (r, s')
        → Created db texts connector input ids s s' r ⊎ Repeats connector input s r × (s' ≡ s)
    unfolding ingest_body
    body_cases s s' r h = elim (Option-cases (db.find_first (event_of connector input) s.prompts)) [
      | inl e ↦
          unfold on_duplicate in
          inl (create_prompt-Created db texts connector input ids s s' r (ground arith))
      | inr (p, e) ↦ repeat_from s s' r p e (ground arith)
    ]

    guards :
        (s : Db) (r : PromptResponse)
        → (ingest_once db texts connector input ids s).0 ≡ ok r
        → (input.project_id ≡ connector.default_project_id)
          × (input.platform ≡ connector.platform)
          × (input.occurred_at ≤ ids.now + 5 * 60 * 1000)
          × (ingest_once db texts connector input ids s
              ≡ db.transaction (ingest_body db texts connector input ids) s)
    unfolding ingest_once
    guards s r h = ground (arith, String_eq.same_iff input.platform connector.platform)

    committed :
        (s : Db) (r : PromptResponse) (x : Result (PromptResponse × Db))
        → (commit s x).0 ≡ ok r
        → x ≡ ok (r, (commit s x).1)
    committed s r (ok (a, s')) h = ground arith
    committed s r (err e) h = cc

    -- A call succeeds only for the project and the platform that the connector was approved for, and an
    -- instant at most five minutes ahead. It either creates the prompt, or finds the event with an
    -- analysis under the same hash and answers with those, and then changes nothing.
    pub ingest_cases :
        (s : Db) (r : PromptResponse)
        → (ingest_once db texts connector input ids s).0 ≡ ok r
        → let s' = (ingest_once db texts connector input ids s).1 in
          (input.project_id ≡ connector.default_project_id)
          × (input.platform ≡ connector.platform)
          × (input.occurred_at ≤ ids.now + 5 * 60 * 1000)
          × (Created db texts connector input ids s s' r ⊎ Repeats connector input s r × (s' ≡ s))
    ingest_cases s r h =
        let (project, platform, time, same) = guards s r h in
        (
          project,
          platform,
          time,
          rw (same, db.transaction_lem)
              (body_cases s _ r (
                committed s r (ingest_body db texts connector input ids s)
                  (rw (same, db.transaction_lem) at h))),
        )

  event_clash :
      (connector : AuthenticatedConnector) (input : IngestPromptRequest) (ids : Ids)
      (project : Project) (p : Prompt)
      → event_of connector input p ≡ true
      → prompt_clash (new_prompt db texts connector input project ids) p ≡ true
  unfolding new_prompt
  event_clash connector input ids project p h = ground arith

  new_matches :
      (connector : AuthenticatedConnector) (input : IngestPromptRequest) (ids : Ids)
      (project : Project)
      → event_of connector input (new_prompt db texts connector input project ids) ≡ true
  unfolding new_prompt
  new_matches connector input ids project = ground arith

  same_hash_new :
      (connector : AuthenticatedConnector) (input : IngestPromptRequest) (ids : Ids)
      (project : Project)
      → hash_differs
          (new_prompt db texts connector input project ids).client_event_hash
          (texts.event_hash input)
        ≡ false
  unfolding new_prompt
  same_hash_new connector input ids project =
      ground (arith, String_eq.same_iff (texts.event_hash input) (texts.event_hash input))

  module _ (connector : AuthenticatedConnector) (input : IngestPromptRequest) (ids : Ids)
      (s s' : Db) (r : PromptResponse) (made : Created db texts connector input ids s s' r) where
    made_prompt : Prompt
    made_prompt = new_prompt db texts connector input made.project ids

    -- The only prompt of the event is the new one.
    finds_new : db.find_first (event_of connector input) s'.prompts ≡ some made_prompt
    unfolding made_prompt
    finds_new = elim (Option-cases (db.find_first (event_of connector input) s'.prompts)) [
      | inl e ↦ absurd (
          ground (
            arith,
            db.missed (event_of connector input) s'.prompts e,
            any_of_In (event_of connector input) made_prompt s'.prompts there
                (new_matches connector input ids made.project),
          ))
      | inr (p, e) ↦
          let (event, listed) = db.found (event_of connector input) s'.prompts p e in
          elim (In-append_one p made_prompt s.prompts
            (subst (In p) (ap (λ x. x.prompts) made.after) listed)) [
              | inl old ↦ absurd (
                  ground (
                    arith,
                    false_of_In _ p s.prompts made.unique old,
                    event_clash connector input ids made.project p event,
                  ))
              | inr new ↦ e ∙ ap some (sym new)
            ]
    ]
      where
        there : In made_prompt s'.prompts
        there = rw made.after (In-append_last _ _)

    finds_analysis :
        any (λ a. a.prompt_id == ids.prompt) s.analyses ≡ false
        → db.find_first (λ (a : Analysis). a.prompt_id == ids.prompt) s'.analyses
          ≡ some (new_analysis db texts connector ids)
    unfolding new_analysis
    finds_analysis free = elim (Option-cases (db.find_first test s'.analyses)) [
      | inl e ↦ absurd (
          ground (
            arith,
            db.missed test s'.analyses e,
            any_of_In test new s'.analyses there ((nat_eq_iff ids.prompt ids.prompt).1 refl),
          ))
      | inr (a, e) ↦
          let (named, listed) = db.found test s'.analyses a e in
          elim (In-append_one a new s.analyses
            (subst (In a) (ap (λ x. x.analyses) made.after) listed)) [
              | inl old ↦ absurd (ground (arith, false_of_In test a s.analyses free old))
              | inr same ↦ e ∙ ap some (sym same)
            ]
    ]
      where
        test : Analysis → Bool
        test a = a.prompt_id == ids.prompt

        new : Analysis
        new = new_analysis db texts connector ids

        there : In new s'.analyses
        there = rw made.after (In-append_last _ _)

    body_again :
        (ids' : Ids)
        → any (λ a. a.prompt_id == ids.prompt) s.analyses ≡ false
        → ingest_body db texts connector input ids' s' ≡ ok (record r { duplicate = true }, s')
    unfolding ingest_body on_duplicate repeat_prompt repeated new_analysis created_response
        made_prompt new_prompt
    body_again ids' free = ground (
      arith,
      finds_new,
      finds_analysis free,
      made.answer,
      same_hash_new connector input ids made.project,
    )

    again :
        (ids' : Ids)
        → any (λ a. a.prompt_id == ids.prompt) s.analyses ≡ false
        → input.project_id ≡ connector.default_project_id
        → input.platform ≡ connector.platform
        → input.occurred_at ≤ ids'.now + 5 * 60 * 1000
        → ingest_once db texts connector input ids' s' ≡ (ok (record r { duplicate = true }), s')
    unfolding ingest_once
    again ids' free project platform time = ground (
      arith,
      String_eq.same_iff input.platform connector.platform,
      body_again ids' free,
      db.transaction_lem (ingest_body db texts connector input ids') s',
    )

  -- An event that was just created and is sent again, not earlier, is answered with the same prompt and
  -- the same analysis, marked as a duplicate, and nothing changes; the id of the new prompt had no
  -- analysis before.
  pub ingest_twice :
      (connector : AuthenticatedConnector) (input : IngestPromptRequest) (ids ids' : Ids) (s : Db)
      (r : PromptResponse)
      → any (λ a. a.prompt_id == ids.prompt) s.analyses ≡ false
      → ids.now ≤ ids'.now
      → (ingest_once db texts connector input ids s).0 ≡ ok r
      → r.duplicate ≡ false
      → let s' = (ingest_once db texts connector input ids s).1 in
        ingest_once db texts connector input ids' s' ≡ (ok (record r { duplicate = true }), s')
  ingest_twice connector input ids ids' s r free later h new =
      let (project, platform, time, outcome) = ingest_cases connector input ids s r h in
      elim outcome [
        | inl made ↦ again connector input ids s _ r made ids' free project platform (omega arith)
        | inr (rep, _) ↦ unfold repeated in absurd (ground (arith, rep.answer))
      ]
