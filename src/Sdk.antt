-- ===== src/Sdk.antt =====
-- connectors/sdk/src/index.ts: the client of a connector, with its queue of captured prompts. The
-- storage, the clock, `Math.random` and the server are the client's environment: a type of states of
-- the world and functions that read or move it, with the laws that the client relies on.
-- A time in the queue is counted in ticks of 1 / (5 * 2^52) ms, in which the products of a delay
-- with 0.8 + r * 0.4 are whole numbers; the rounding of the floating-point product is left out.
mod World
pub mod Backoff
pub mod Queue
pub mod Flush
pub mod Connect
pub mod Capture
pub mod Shared
pub mod Sample
mod Tests
pub use World.*
use Prim.Native.Char.{code}
use Prim.Native.String
use mathlib.Core.Option
use promptlens_v.Prelude.{
  ℕ, zero, suc, String, ◌≡◌, ◌<◌, Bool, true, false, not, Option, none, some, List, [], ◌∷◌, ◌++◌,
  ◌+◌, ◌*◌, ◌^◌, min, ◌==◌, ℕ_eq, String_eq, ◌&&◌, ◌||◌, ltb, leb, if◌then◌else◌, any, is_some,
  length,
}
use promptlens_v.Store.{Result, ok, err, failure}

abbrev pub ticks_per_ms : ℕ
ticks_per_ms = 5 * 2 ^ 52

-- `response.ok`
abbrev pub is_ok : ℕ → Bool
is_ok status = if leb 200 status then leb status 299 else false

pub backoff_ms : (attempts : ℕ) → ℕ
backoff_ms attempts = min (60 * 60000) (1000 * 2 ^ min attempts 12)

-- `exponentialMs * (0.8 + random * 0.4)`, in ticks.
pub jittered : (exponential_ms random : ℕ) → ℕ
jittered exponential_ms random = exponential_ms * (4 * 2 ^ 52 + 2 * random)

abbrev pub same_event : CapturedPrompt → QueuedPrompt → Bool
same_event prompt item = item.prompt.client_event_id == prompt.client_event_id

module _ (env : Environment) where
  open env use {
    World, load_tokens, save_tokens, clear_tokens, load_queue, save_queue, clock, random,
    post_ingest, post_refresh, post_token,
  }

  -- A step that may throw; what it did to the world before stays done.
  abbrev pub Eff : Type 0 → Type 0
  Eff A = World → Result A × World

  infixl 5 ◌>>=◌
  abbrev pub ◌>>=◌ : {A B : Type 0} → Eff A → (A → Eff B) → Eff B
  ◌>>=◌ m f w = let r = m w in elim r.0 [ ok a ↦ f a r.1 | err e ↦ (err e, r.1) ]

  abbrev pub return : {A : Type 0} → A → Eff A
  return a w = (ok a, w)

  abbrev pub fail : {A : Type 0} → String → Eff A
  fail message w = (err (failure message), w)

  abbrev pub reading : {A : Type 0} → (World → A × World) → Eff A
  reading f w = let r = f w in (ok r.0, r.1)

  received : (payload : TokenResponse) (now : ℕ) → ConnectorTokens
  received payload now = record {
    access_token = payload.access_token;
    refresh_token = payload.refresh_token;
    expires_at = now + payload.expires_in * 1000;
    installation_id = payload.installation_id;
    project_id = payload.project_id;
  }

  store_tokens : TokenResponse → Eff ConnectorTokens
  store_tokens payload w =
      let r = clock w in let tokens = received payload r.0 in (ok tokens, save_tokens tokens r.1)

  refresh_reply : Response TokenResponse → Eff ConnectorTokens
  refresh_reply unreachable w = (err (failure "fetch failed"), w)
  refresh_reply (answered status payload) w =
      if is_ok status
      then store_tokens payload w
      else (err (failure "Token refresh failed."), if status == 401 then clear_tokens w else w)

  pub refresh : (refresh_token : String) → Eff ConnectorTokens
  refresh refresh_token w = let r = post_refresh refresh_token w in refresh_reply r.0 r.1

  pub ingest : CapturedPrompt → (access_token : String) → Eff ℕ
  ingest prompt access_token w =
      let r = post_ingest prompt access_token w in
      elim r.0 [
        | unreachable ↦ (err (failure "fetch failed"), r.1)
        | answered status body ↦ (ok status, r.1)
      ]

  renewed : ConnectorTokens → Eff ConnectorTokens
  renewed tokens = do
    now ← reading clock
    if leb tokens.expires_at (now + 30000) then refresh tokens.refresh_token else return tokens

  accepted : (status : ℕ) → Eff (Unit {0})
  accepted status = if is_ok status then return tt else fail "Prompt ingest failed."

  -- `send` from the first answer on: a 401 is answered by one refresh and one more post.
  settle : CapturedPrompt → ConnectorTokens → (status : ℕ) → Eff (Unit {0})
  settle prompt tokens status =
      if status == 401
      then (do
        fresh ← refresh tokens.refresh_token
        again ← ingest prompt fresh.access_token
        accepted again)
      else accepted status

  pub send : CapturedPrompt → Eff (Unit {0})
  send prompt w = elim (load_tokens w) [
    | none ↦ (err (failure "Connector is not authenticated."), w)
    | some loaded ↦
        (do
          tokens ← renewed loaded
          status ← ingest prompt tokens.access_token
          settle prompt tokens status)
          w
  ]

  -- The item that a failed attempt leaves in the queue.
  pub postponed : QueuedPrompt → World → QueuedPrompt × World
  postponed item w =
      let attempts = item.attempts + 1 in
      let t = clock w in
      let r = random t.1 in
      (
        record item {
          attempts = attempts;
          next_attempt_at = t.0 * ticks_per_ms + jittered (backoff_ms attempts) r.0;
        },
        r.1,
      )

  -- The `try` and its `catch`.
  after_send : QueuedPrompt → Result (Unit {0}) × World → Option QueuedPrompt × World
  after_send item r = elim r.0 [
    | ok _ ↦ (none, r.1)
    | err _ ↦ let p = postponed item r.1 in (some p.0, p.1)
  ]

  -- One round of the loop of `flushInternal`: what it retains of the item.
  pub flush_item : QueuedPrompt → World → Option QueuedPrompt × World
  flush_item item w =
      let t = clock w in
      if ltb (t.0 * ticks_per_ms) item.next_attempt_at
      then (some item, t.1)
      else after_send item (send item.prompt t.1)

  abbrev pub retain : Option QueuedPrompt → List QueuedPrompt → List QueuedPrompt
  retain none items = items
  retain (some item) items = item ∷ items

  pub flush_items : List QueuedPrompt → World → List QueuedPrompt × World
  flush_items [] w = ([], w)
  flush_items (item ∷ items) w =
      let r = flush_item item w in let rest = flush_items items r.1 in (retain r.0 rest.0, rest.1)

  pub flush_internal : World → World
  flush_internal w = let r = flush_items (load_queue w) w in save_queue r.0 r.1

  pub enqueue : CapturedPrompt → World → World
  enqueue prompt w =
      let queue = load_queue w in
      if any (same_event prompt) queue
      then w
      else let t = clock w in
        save_queue
          (queue
            ++ record { prompt = prompt; attempts = 0; next_attempt_at = t.0 * ticks_per_ms } ∷ [])
          t.1

  -- `authorization_pending` and `slow_down` ask the caller to poll again.
  waits : Option String → Bool
  waits none = false
  waits (some code) = code == "authorization_pending" || code == "slow_down"

  token_reply : Response (Option String × TokenResponse) → Eff Bool
  token_reply unreachable w = (err (failure "fetch failed"), w)
  token_reply (answered status (code, payload)) w =
      if status == 400 && waits code
      then (ok false, w)
      else if is_ok status
      then (store_tokens payload >>= λ _. return true) w
      else (err (failure "Device token exchange failed."), w)

  pub poll_authorization : (device_code code_verifier : String) → Eff Bool
  poll_authorization device_code code_verifier w =
      let r = post_token device_code code_verifier w in token_reply r.0 r.1

-- `<` on texts, by code points.
pub before : String → String → Bool
before String.[] String.[] = false
before String.[] (String.◌∷◌ c s) = true
before (String.◌∷◌ c s) String.[] = false
before (String.◌∷◌ c s) (String.◌∷◌ d t) =
    let rest = before s t in
    if ltb (code c) (code d) then true else if ltb (code d) (code c) then false else rest

pub record ConnectorHealth : Type 0 where
  pub authenticated : Bool
  pub installation_id : Option ℕ
  pub queued_prompts : ℕ
  pub oldest_queued_at : Option String

-- One round of the `reduce` of `health`.
oldest_of : Option String → QueuedPrompt → Option String
oldest_of none item = some item.prompt.occurred_at
oldest_of (some value) item =
    if before item.prompt.occurred_at value then some item.prompt.occurred_at else some value

oldest_from : Option String → List QueuedPrompt → Option String
oldest_from value [] = value
oldest_from value (item ∷ queue) = oldest_from (oldest_of value item) queue

pub health : (env : Environment) → env.World → ConnectorHealth
health env w = record {
  authenticated = is_some (env.load_tokens w);
  installation_id = Option.map (λ t. t.installation_id) (env.load_tokens w);
  queued_prompts = length (env.load_queue w);
  oldest_queued_at = oldest_from none (env.load_queue w);
}
