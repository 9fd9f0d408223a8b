-- ===== src/Sdk/Connect.antt =====
-- beginAuthorization of connectors/sdk/src/index.ts and `connect` of connectors/claude-code/src/cli.ts
-- and connectors/codex/src/cli.ts: the device flow on the side of the connector. The loop runs on
-- fuel; `poll_until_enough` shows how much is enough. Opening a browser and printing are left out.
pub mod Deadline
mod Tests
use promptlens_v.Prelude.{
  ℕ, String, Bool, true, false, Option, none, some, ◌≡◌, ◌≤◌, ◌+◌, ◌*◌, zero, suc, ltb,
  if◌then◌else◌,
}
use promptlens_v.Store.{Result, ok, err, failure}
use promptlens_v.Sdk.{Environment, Response, unreachable, answered, is_ok, Eff, poll_authorization}

pub record DeviceAuthorizationStart : Type 0 where
  pub device_code : String
  pub user_code : String
  pub verification_uri : String
  pub expires_in : ℕ
  pub interval : ℕ
  pub code_verifier : String

pub record BeginAuthorizationOptions : Type 0 where
  pub platform : String
  pub display_name : String

-- What the server answers: all but the verifier.
pub record AuthorizationPayload : Type 0 where
  pub device_code : String
  pub user_code : String
  pub verification_uri : String
  pub expires_in : ℕ
  pub interval : ℕ

-- What the flow does besides: the request, randomness and its hash, and waiting. Time does not run
-- backwards, and a wait lasts at least as long as was asked for.
pub record Flow (env : Environment) : Type 0 where
  pub random_base64url : env.World → String × env.World
  pub sha256_base64url : String → String
  pub post_authorization :
      BeginAuthorizationOptions
      → (code_challenge : String) → env.World
      → Response AuthorizationPayload × env.World
  pub sleep : (ms : ℕ) → env.World → env.World
  pub sleep_lasts : (ms : ℕ) (w : env.World) → (env.clock w).0 + ms ≤ (env.clock (sleep ms w)).0
  pub clock_later : (w : env.World) → (env.clock w).0 ≤ (env.clock (env.clock w).1).0
  pub post_token_later :
      (code verifier : String) (w : env.World)
      → (env.clock w).0 ≤ (env.clock (env.post_token code verifier w).1).0

pub started : AuthorizationPayload → (code_verifier : String) → DeviceAuthorizationStart
started payload code_verifier = record {
  device_code = payload.device_code;
  user_code = payload.user_code;
  verification_uri = payload.verification_uri;
  expires_in = payload.expires_in;
  interval = payload.interval;
  code_verifier = code_verifier;
}

module _ (env : Environment) (flow : Flow env) where
  begun_with :
      (code_verifier : String) → Response AuthorizationPayload → Eff env DeviceAuthorizationStart
  begun_with code_verifier unreachable w = (err (failure "fetch failed"), w)
  begun_with code_verifier (answered status payload) w =
      if is_ok status
      then (ok (started payload code_verifier), w)
      else (err (failure "Device authorization failed."), w)

  pub begin_authorization : BeginAuthorizationOptions → Eff env DeviceAuthorizationStart
  begin_authorization input w =
      let v = flow.random_base64url w in
      let r = flow.post_authorization input (flow.sha256_base64url v.0) v.1 in
      begun_with v.0 r.0 r.1

  -- The loop; none where the fuel runs out.
  pub poll_until :
      (fuel deadline : ℕ)
      → DeviceAuthorizationStart
      → env.World
      → Option (Result (Unit {0}) × env.World)
  poll_until zero deadline start w = none
  poll_until (suc fuel) deadline start w =
      let t = env.clock w in
      elim (ltb t.0 deadline) [
        | false ↦ some (err (failure "Device authorization expired."), t.1)
        | true ↦
            let r =
              poll_authorization env start.device_code start.code_verifier
                (flow.sleep (start.interval * 1000) t.1) in
            elim r.0 [
              | err e ↦ some (err e, r.1)
              | ok true ↦ some (ok tt, r.1)
              | ok false ↦ poll_until fuel deadline start r.1
            ]
      ]

  -- Enough rounds for an interval of a second or more.
  abbrev pub rounds_for : DeviceAuthorizationStart → ℕ
  rounds_for start = suc start.expires_in

  pub connect : BeginAuthorizationOptions → env.World → Option (Result (Unit {0}) × env.World)
  connect input w =
      let r = begin_authorization input w in
      elim r.0 [
        | err e ↦ some (err e, r.1)
        | ok start ↦
            let t = env.clock r.1 in
            poll_until (rounds_for start) (t.0 + start.expires_in * 1000) start t.1
      ]
