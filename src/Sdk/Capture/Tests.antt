-- ===== src/Sdk/Capture/Tests.antt =====
-- Examples for the command of the hook.
use Prim.Native.Char.{code}
use promptlens_v.Prelude.{ℕ_eq, ◌≡◌, refl, none, some, [], ◌∷◌, ◌==◌}
use promptlens_v.Store.{failure}
use promptlens_v.Sdk.{ConnectorTokens}
use promptlens_v.Sdk.Sample.{Simulation, simulated}
use promptlens_v.Sdk.Capture.{
  Storage, HookInput, Machine, spoken, is_blank, split, last_piece, workspace_tags,
}
use promptlens_v.Sdk.Capture.Untouched.{Undisturbed}

abbrev machine : Machine simulated
machine = record {
  is_space = λ c. code c == 32;
  random_uuid = λ w. (77, w);
  iso_now = λ w. ("2026-08-01T00:00:00.000Z", w);
  time_zone = "";
  load_queue-random_uuid = λ w. refl;
  load_queue-iso_now = λ w. refl;
}

abbrev input : HookInput
input = record { prompt = some " fix it "; cwd = some "/home/ada\\work/api"; turn_id = none }

abbrev tokens : ConnectorTokens
tokens = record {
  access_token = "a1";
  refresh_token = "r1";
  expires_at = 900_000;
  installation_id = 5;
  project_id = 9;
}

-- The server refuses every post.
abbrev refused : Simulation
refused = record { tokens = some tokens; queue = []; time = 1_000; status = 503 }

last_folder : workspace_tags input.cwd ≡ "workspace:api" ∷ []
unfolding workspace_tags split last_piece
last_folder = refl

nothing_said : spoken machine.is_space (some "  ") ≡ none
unfolding spoken is_blank
nothing_said = refl

-- The save of the flush throws.
abbrev storage : Storage
storage = record {
  load_tokens_error = none;
  enqueue_load_error = none;
  enqueue_save_error = none;
  flush_load_error = none;
  flush_save_error = some (failure "Connector state is busy.");
}

abbrev alone : Undisturbed simulated
alone = record {
  by_save_tokens = λ t w. refl;
  by_clear_tokens = λ w. refl;
  by_random = λ w. refl;
  by_ingest = λ p t w. refl;
  by_refresh = λ t w. refl;
}
