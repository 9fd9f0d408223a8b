-- ===== src/Device/Race.antt =====
-- Calls of apps/api/src/connectors/device-authorization.service.ts that overlap: `poll`, `refresh` and
-- `approve` read a row and go on from it later, in one step each.
pub mod Once
pub mod Tokens
pub mod Calls
pub mod Refreshed
pub mod Approvals
mod Tests
use promptlens_v.Prelude.{ℕ, ◌≡◌, refl, arith, String, Option, none, some, ◌==◌, String_eq}
use promptlens_v.Store.{Prisma, Result, ok, err, commit}
use promptlens_v.Store.Overlap.{Service}
use promptlens_v.Schema.{Db, DeviceAuthorization, ConnectorCredential}
use promptlens_v.Actor.{AuthenticatedActor}
use promptlens_v.Device.{
  Crypto, Draw, ConnectorTokenResponse, poll, poll_row, poll_answer, refresh, refresh_row,
  refresh_answer, approve_row,
}
use promptlens_v.Device.History.{Call, polls, refreshes, step}

-- The key that an answer with tokens exchanges.
abbrev pub answered_with : Result ConnectorTokenResponse → (key : String) → Option String
answered_with (ok r) key = some key
answered_with (err e) key = none

-- An answer exchanges its key only if it carries tokens.
pub key_of_answer :
    (answer : Result ConnectorTokenResponse) (hash key : String)
    → answered_with answer hash ≡ some key
    → (r : ConnectorTokenResponse) × (answer ≡ ok r) × (hash ≡ key)
key_of_answer (ok r) hash key h = (r, refl, ground arith)
key_of_answer (err e) hash key h = absurd (ground arith)

pub record PollRequest : Type 0 where
  pub device_code : String
  pub verifier : Option String
  pub draw : Draw

pub record PollReading : Type 0 where
  pub request : PollRequest
  pub row : Option DeviceAuthorization

pub record RefreshRequest : Type 0 where
  pub refresh_token : String
  pub draw : Draw

pub record RefreshReading : Type 0 where
  pub request : RefreshRequest
  pub row : Option ConnectorCredential

module _ (db : Prisma) (crypto : Crypto) where
  pub code_exchanged : Call → Db → Option String
  code_exchanged (polls code v d) s =
      answered_with (poll db crypto code v d s).0 (crypto.digest code)
  code_exchanged _ s = none

  pub read_poll : PollRequest → Db → PollReading
  read_poll q s = record {
    request = q;
    row = db.find_first (λ a. a.device_code_hash == crypto.digest q.device_code) s.devices;
  }

  -- The part of the transaction behind the read.
  pub go_on_poll : PollReading → Db → Option String × Db
  go_on_poll r s =
      let q = r.request in
      let x = commit s (poll_row db crypto r.row q.verifier q.draw s) in
      (answered_with (poll_answer db crypto q.draw x.0) (crypto.digest q.device_code), x.1)

  -- The keys are the digests of the device codes.
  abbrev pub polling : Service
  polling = record {
    State = Db;
    Whole = Call;
    Request = PollRequest;
    Reading = PollReading;
    whole = λ c s. (code_exchanged c s, step db crypto c s);
    read = read_poll;
    go_on = go_on_poll;
  }

  pub token_exchanged : Call → Db → Option String
  token_exchanged (refreshes token d) s =
      answered_with (refresh db crypto token d s).0 (crypto.digest token)
  token_exchanged _ s = none

  pub read_refresh : RefreshRequest → Db → RefreshReading
  read_refresh q s = record {
    request = q;
    row = db.find_first (λ c. c.refresh_token_hash == crypto.digest q.refresh_token) s.credentials;
  }

  pub go_on_refresh : RefreshReading → Db → Option String × Db
  go_on_refresh r s =
      let q = r.request in
      let x = commit s (refresh_row db crypto r.row q.draw s) in
      (answered_with (refresh_answer db crypto q.draw x.0) (crypto.digest q.refresh_token), x.1)

  -- The keys are the digests of the refresh tokens.
  abbrev pub refreshing : Service
  refreshing = record {
    State = Db;
    Whole = Call;
    Request = RefreshRequest;
    Reading = RefreshReading;
    whole = λ c s. (token_exchanged c s, step db crypto c s);
    read = read_refresh;
    go_on = go_on_refresh;
  }

  -- An approval behind its read.
  pub approve_on :
      AuthenticatedActor
      → (project_id now id : ℕ) → Option DeviceAuthorization
      → Db
      → Result (Unit {0}) × Db
  approve_on actor project_id now id row s =
      commit s (approve_row db crypto actor project_id now id row s)
