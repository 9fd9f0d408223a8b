-- ===== src/Sdk/Sample.antt =====
-- A small simulated world for the connector client.
use promptlens_v.Prelude.{ℕ, refl, Option, none, some, List, arith, ◌+◌, ◌^◌}
use promptlens_v.Sdk.{Environment, QueuedPrompt, ConnectorTokens, TokenResponse, answered}

-- Tokens, a queue, a clock that moves on by one, and the status of every answer.
pub record Simulation : Type 0 where
  pub tokens : Option ConnectorTokens
  pub queue : List QueuedPrompt
  pub time : ℕ
  pub status : ℕ

abbrev pub payload : TokenResponse
payload = record {
  access_token = "a2";
  refresh_token = "r2";
  expires_in = 900;
  installation_id = 5;
  project_id = 9;
}

abbrev pub simulated : Environment
simulated = record {
  World = Simulation;
  load_tokens = λ w. w.tokens;
  save_tokens = λ t w. record w { tokens = some t };
  clear_tokens = λ w. record w { tokens = none };
  load_queue = λ w. w.queue;
  save_queue = λ q w. record w { queue = q };
  clock = λ w. (w.time, record w { time = w.time + 1 });
  random = λ w. (2 ^ 51, w);
  post_ingest = λ p t w. (answered w.status tt, w);
  post_refresh = λ t w. (answered w.status payload, w);
  post_token = λ c v w. (answered w.status (none, payload), w);
  random_lt = λ w. omega arith;
  load-save_queue = λ q w. refl;
  load-save_tokens = λ t w. refl;
  load-clear_tokens = λ w. refl;
  load_tokens-save_queue = λ q w. refl;
  load_queue-clock = λ w. refl;
}
