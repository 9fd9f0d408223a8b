-- ===== src/History/Tests.antt =====
-- Examples for the prompt history.
use promptlens_v.Prelude.{◌≡◌, refl, none, [], ◌∷◌, false}
use promptlens_v.Store.{ok}
use promptlens_v.Store.Memory.{memory}
use promptlens_v.Schema.{Db, Prompt, MembershipRole, AnalysisStatus}
use promptlens_v.Schema.Sample.{blank}
use promptlens_v.Actor.{AuthenticatedActor}
use promptlens_v.History.{
  reanalyze, reanalyze_body, visible, prompt_scope, delete_prompt, delete_prompt_body,
}

abbrev reader : AuthenticatedActor
reader = record {
  user_id = 5;
  tenant_id = 1;
  role = MembershipRole.member;
  session_id = 9;
  is_instance_admin = false;
}

abbrev prompt : Prompt
prompt = record {
  id = 3;
  tenant_id = 1;
  project_id = 4;
  user_id = 5;
  connector_installation_id = none;
  client_event_id = none;
  client_event_hash = none;
  content = "Write a parser";
  platform = "claude-code";
  model = "m";
  occurred_at = 0;
  timezone = "UTC";
  metadata = "";
  deleted_at = none;
  created_at = 0;
}

abbrev kept : Db
kept = record blank { prompts = prompt ∷ [] }

accepted : (reanalyze memory reader 3 7 8 1000 kept).0 ≡ ok (7, AnalysisStatus.queued)
unfolding reanalyze reanalyze_body visible prompt_scope
accepted = refl

deletion_done : (delete_prompt memory reader 3 1000 kept).0 ≡ ok tt
unfolding delete_prompt delete_prompt_body visible prompt_scope
deletion_done = refl
