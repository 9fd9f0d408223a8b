-- ===== src/Sdk/World.antt =====
-- The data of connectors/sdk/src/index.ts and the world around its client.
use promptlens_v.Prelude.{ℕ, String, ◌≡◌, ◌<◌, Option, none, some, List, ◌^◌, ℕ_eq, String_eq}

pub record CapturedPrompt : Type 0 where
  pub client_event_id : ℕ
  pub project_id : ℕ
  pub content : String
  pub platform : String
  pub model : String
  pub occurred_at : String
  pub timezone : String
  pub tags : List String

pub record ConnectorTokens : Type 0 where
  pub access_token : String
  pub refresh_token : String
  pub expires_at : ℕ
  pub installation_id : ℕ
  pub project_id : ℕ

pub record QueuedPrompt : Type 0 where
  pub prompt : CapturedPrompt
  pub attempts : ℕ
  pub next_attempt_at : ℕ

pub record TokenResponse : Type 0 where
  pub access_token : String
  pub refresh_token : String
  pub expires_in : ℕ
  pub installation_id : ℕ
  pub project_id : ℕ

-- What a request comes to: it throws (no connection), or it answers with a status and, where the
-- client reads one, a body.
pub data Response (A : Type 0) : Type 0 where
  unreachable : Response A
  answered : (status : ℕ) → A → Response A

-- `clock` and `random` also move the world on: two readings need not agree. `random` counts in
-- units of 2^-52.
pub record Environment : Type 1 where
  pub World : Type 0
  pub load_tokens : World → Option ConnectorTokens
  pub save_tokens : ConnectorTokens → World → World
  pub clear_tokens : World → World
  pub load_queue : World → List QueuedPrompt
  pub save_queue : List QueuedPrompt → World → World
  pub clock : World → ℕ × World
  pub random : World → ℕ × World
  pub post_ingest : CapturedPrompt → (access_token : String) → World → Response (Unit {0}) × World
  pub post_refresh : (refresh_token : String) → World → Response TokenResponse × World
  pub post_token :
      (device_code code_verifier : String)
      → World
      → Response (Option String × TokenResponse) × World
  -- `Math.random` is below 1.
  pub random_lt : (w : World) → (random w).0 < 2 ^ 52
  -- What is saved is what is loaded.
  pub load-save_queue : (q : List QueuedPrompt) (w : World) → load_queue (save_queue q w) ≡ q
  pub load-save_tokens : (t : ConnectorTokens) (w : World) → load_tokens (save_tokens t w) ≡ some t
  pub load-clear_tokens : (w : World) → load_tokens (clear_tokens w) ≡ none
  pub load_tokens-save_queue :
      (q : List QueuedPrompt) (w : World) → load_tokens (save_queue q w) ≡ load_tokens w
  pub load_queue-clock : (w : World) → load_queue (clock w).1 ≡ load_queue w
