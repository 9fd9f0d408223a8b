-- ===== src/Ingest/Tests.antt =====
-- An ingestion at a concrete input.
use promptlens_v.Prelude.{◌≡◌, refl, none, some, [], ◌∷◌, arith, false, true, ◌+◌}
use promptlens_v.Store.{ok}
use promptlens_v.Store.Memory.{memory}
use promptlens_v.Schema.{Db, ProjectStatus, AnalysisStatus}
use promptlens_v.Schema.Sample.{blank}
use promptlens_v.Actor.{AuthenticatedConnector}
use promptlens_v.Ingest.{
  Texts, Ids, IngestPromptRequest, PromptResponse, ingest_once, ingest_body, on_duplicate,
  create_prompt, tag_all, tag_prompt, upsert_tag, normalized_tags, distinct_from, member,
  new_prompt, new_analysis, new_event, original_version, created_response,
}
use promptlens_v.Ingest.Created.{Created, create_prompt-Created}
use promptlens_v.Ingest.Repeat.{ingest_twice}

abbrev plain_texts : Texts
plain_texts = record { to_lower_case = λ s. s; event_hash = λ r. r.content }

abbrev installed : AuthenticatedConnector
installed = record {
  installation_id = 5;
  tenant_id = 7;
  user_id = 8;
  default_project_id = 9;
  platform = "codex";
}

abbrev event : IngestPromptRequest
event = record {
  client_event_id = 1;
  project_id = 9;
  content = "hello";
  platform = "codex";
  model = "codex";
  occurred_at = 1_000;
  timezone = "UTC";
  tags = "a" ∷ "b" ∷ "a" ∷ [];
  context = "{}";
}

abbrev drawn : Ids
drawn = record { now = 2_000; prompt = 100; analysis = 101; event = 102; tag = λ i. 200 + i }

abbrev workspace : Db
workspace = record blank {
  projects =
      record {
        id = 9;
        tenant_id = 7;
        name = "General";
        description = none;
        status = ProjectStatus.active;
        archived_at = none;
      }
      ∷ [];
}

abbrev answer : PromptResponse
answer = record {
  id = 100;
  project_id = 9;
  client_event_id = some 1;
  analysis_id = 101;
  analysis_status = AnalysisStatus.queued;
  duplicate = false;
  created_at = 2_000;
}

two_tags : normalized_tags memory plain_texts event.tags ≡ "a" ∷ "b" ∷ []
unfolding normalized_tags distinct_from member
two_tags = refl

ingested : (ingest_once memory plain_texts installed event drawn workspace).0 ≡ ok answer
unfolding ingest_once ingest_body on_duplicate create_prompt tag_all tag_prompt upsert_tag
    normalized_tags distinct_from member new_prompt new_analysis new_event original_version
    created_response
ingested = refl

created :
    create_prompt memory plain_texts installed event drawn workspace
    ≡ ok (answer, (ingest_once memory plain_texts installed event drawn workspace).1)
unfolding ingest_once ingest_body on_duplicate create_prompt tag_all tag_prompt upsert_tag
    normalized_tags distinct_from member new_prompt new_analysis new_event original_version
    created_response
created = refl

create_prompt-Created_example :
    Created memory plain_texts installed event drawn workspace
      (ingest_once memory plain_texts installed event drawn workspace).1
      answer
create_prompt-Created_example =
    create_prompt-Created memory plain_texts installed event drawn workspace _ answer created

ingest_twice_example :
    let s = (ingest_once memory plain_texts installed event drawn workspace).1 in
    ingest_once memory plain_texts installed event (record drawn { now = 3_000; prompt = 300 }) s
    ≡ (ok (record answer { duplicate = true }), s)
ingest_twice_example =
    ingest_twice memory plain_texts installed event drawn
      (record drawn { now = 3_000; prompt = 300 }) workspace answer refl (omega arith) ingested refl
