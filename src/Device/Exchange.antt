-- ===== src/Device/Exchange.antt =====
-- `poll` and `refresh` of apps/api/src/connectors/device-authorization.service.ts.
use promptlens_v.Prelude.{
  ℕ, String, Bool, true, false, not, ◌&&◌, ◌||◌, Option, none, some, ◌+◌, ◌*◌, ◌==◌, ℕ_eq,
  String_eq, ltb, leb, if◌then◌else◌, is_none,
}
use promptlens_v.Store.{
  Prisma, Tx, Result, ok, err, bad_request, unauthorized, failure, record_missing, ◌>>=◌, ◌>>◌,
  pure, require, find_first, update_many, update, create,
}
use promptlens_v.Schema.{Db, DeviceAuthorization, ConnectorCredential, DeviceAuthorizationStatus}
use promptlens_v.Schema.Tables.{devices, installations, credentials}
use promptlens_v.Schema.Enums.{is_pending, is_approved}
use promptlens_v.Device.Messages.{
  poll_interval_seconds, access_ttl_seconds, refresh_ttl_seconds, Crypto, ConnectorTokenResponse,
  Draw, PollState, RefreshState, chosen,
}

abbrev pub credential_clash : ConnectorCredential → ConnectorCredential → Bool
credential_clash a b =
    a.id == b.id
    || (a.access_token_hash == b.access_token_hash || a.refresh_token_hash == b.refresh_token_hash)

-- The filters of `refresh` and what it writes.
abbrev pub unclaimed : ConnectorCredential → ConnectorCredential → Bool
unclaimed c b = b.id == c.id && (is_none b.used_at && is_none b.revoked_at)

abbrev pub live_relative : ConnectorCredential → ConnectorCredential → Bool
live_relative c b = b.family_id == c.family_id && is_none b.revoked_at

abbrev pub used : Draw → ConnectorCredential → ConnectorCredential
used d b = record b { used_at = some d.now }

abbrev pub withdrawn : Draw → ConnectorCredential → ConnectorCredential
withdrawn d b = record b { revoked_at = some d.now }

abbrev pub replaced : Draw → ConnectorCredential → ConnectorCredential
replaced d b = record b { replaced_by_id = some d.new_id }

abbrev pub polled_at : Option ℕ → ℕ → Bool
polled_at none now = false
polled_at (some last) now = ltb now (last + poll_interval_seconds * 1000)

module _ (db : Prisma) (crypto : Crypto) where
  open crypto use {digest, pkce_challenge}

  -- The PKCE check: a stored challenge wants a verifier that hashes to it.
  unfoldable pub verifier_fails : Option String → Option String → Bool
  verifier_fails challenge verifier = elim (chosen challenge) [
    | none ↦ false
    | some c ↦ elim (chosen verifier) [ none ↦ true | some v ↦ not (pkce_challenge v == c) ]
  ]

  unfoldable pub credential_for : (tenant installation family : ℕ) → Draw → ConnectorCredential
  credential_for tenant installation family d = record {
    id = d.new_id;
    tenant_id = tenant;
    installation_id = installation;
    access_token_hash = digest d.access_token;
    refresh_token_hash = digest d.refresh_token;
    family_id = family;
    access_expires_at = d.now + access_ttl_seconds * 1000;
    refresh_expires_at = d.now + refresh_ttl_seconds * 1000;
    used_at = none;
    revoked_at = none;
    replaced_by_id = none;
  }

  -- The claim of an approved authorization and the first credential of a new family.
  unfoldable pub claim : DeviceAuthorization → (installation : ℕ) → Draw → Tx Db PollState
  claim a installation d = do
    claimed ←
        update_many db devices (λ b. b.id == a.id && is_approved b.status)
          (λ b. record b {
            status = DeviceAuthorizationStatus.consumed;
            last_polled_at = some d.now;
          })
    if claimed == 1
        then (do
          tenant ← require a.tenant_id (failure "null value in column tenant_id")
          create db credentials credential_clash (credential_for tenant installation d.new_family d)
          pure (PollState.issued installation a.project_id))
        else pure PollState.denied

  unfoldable pub poll_ready : DeviceAuthorization → Draw → Tx Db PollState
  poll_ready a d =
      if is_pending a.status
      then (do
        update db devices (λ b. b.id == a.id) (λ b. record b { last_polled_at = some d.now })
        pure PollState.pending)
      else if is_approved a.status
      then elim a.installation_id [ none ↦ pure PollState.denied | some i ↦ claim a i d ]
      else pure PollState.denied

  unfoldable pub poll_row :
      Option DeviceAuthorization → (verifier : Option String) → Draw → Tx Db PollState
  poll_row none verifier d = pure PollState.invalid
  poll_row (some a) verifier d =
      if verifier_fails a.code_challenge verifier
      then pure PollState.invalid_verifier
      else if leb a.expires_at d.now
      then (do
        _ ←
            update_many db devices (λ b. b.id == a.id && is_pending b.status)
              (λ b. record b { status = DeviceAuthorizationStatus.expired })
        pure PollState.expired)
      else if polled_at a.last_polled_at d.now
      then pure PollState.slow_down
      else poll_ready a d

  unfoldable pub poll_body :
      (device_code : String) (verifier : Option String) → Draw → Tx Db PollState
  poll_body device_code verifier d = do
    row ← find_first db devices (λ a. a.device_code_hash == digest device_code)
    poll_row row verifier d

  unfoldable pub token_response :
      Draw → (installation : ℕ) (project : Option ℕ) → ConnectorTokenResponse
  token_response d installation project = record {
    access_token = d.access_token;
    refresh_token = d.refresh_token;
    token_type = "Bearer";
    expires_in = access_ttl_seconds;
    installation_id = installation;
    project_id = project;
  }

  -- The answer after the transaction.
  abbrev pub poll_answer : Draw → Result PollState → Result ConnectorTokenResponse
  poll_answer d (err e) = err e
  poll_answer d (ok PollState.invalid) = err (unauthorized "Invalid device code.")
  poll_answer d (ok PollState.invalid_verifier) = err (unauthorized "Invalid PKCE code verifier.")
  poll_answer d (ok PollState.expired) = err (bad_request "Device code expired.")
  poll_answer d (ok PollState.slow_down) = err (bad_request "slow_down")
  poll_answer d (ok PollState.pending) = err (bad_request "authorization_pending")
  poll_answer d (ok PollState.denied) = err (bad_request "access_denied")
  poll_answer d (ok (PollState.issued i p)) = ok (token_response d i p)

  unfoldable pub poll :
      (device_code : String) (verifier : Option String)
      → Draw
      → Db
      → Result ConnectorTokenResponse × Db
  poll device_code verifier d s =
      let r = db.transaction (poll_body device_code verifier d) s in (poll_answer d r.0, r.1)

  -- The replacement of a credential that was claimed for the first time.
  unfoldable pub rotate : ConnectorCredential → Draw → Tx Db RefreshState
  rotate c d = do
    create db credentials credential_clash
        (credential_for c.tenant_id c.installation_id c.family_id d)
    update db credentials (λ b. b.id == c.id) (replaced d)
    row ← find_first db installations (λ i. i.id == c.installation_id)
    installation ← require row record_missing
    pure (RefreshState.issued c.installation_id installation.default_project_id)

  unfoldable pub refresh_usable : ConnectorCredential → Draw → Tx Db RefreshState
  refresh_usable c d = do
    claimed ← update_many db credentials (unclaimed c) (used d)
    if claimed == 1 then rotate c d else (do
      _ ← update_many db credentials (live_relative c) (withdrawn d)
      pure RefreshState.reuse)

  unfoldable pub refresh_row : Option ConnectorCredential → Draw → Tx Db RefreshState
  refresh_row none d = pure RefreshState.invalid
  refresh_row (some c) d =
      if not (is_none c.revoked_at) || leb c.refresh_expires_at d.now
      then pure RefreshState.invalid
      else refresh_usable c d

  unfoldable pub refresh_body : (refresh_token : String) → Draw → Tx Db RefreshState
  refresh_body refresh_token d = do
    row ← find_first db credentials (λ c. c.refresh_token_hash == digest refresh_token)
    refresh_row row d

  abbrev pub refresh_answer : Draw → Result RefreshState → Result ConnectorTokenResponse
  refresh_answer d (err e) = err e
  refresh_answer d (ok RefreshState.invalid) =
      err (unauthorized "Refresh token is invalid or expired.")
  refresh_answer d (ok RefreshState.reuse) = err (unauthorized "Refresh token reuse detected.")
  refresh_answer d (ok (RefreshState.issued i p)) = ok (token_response d i (some p))

  unfoldable pub refresh : (refresh_token : String) → Draw → Db → Result ConnectorTokenResponse × Db
  refresh refresh_token d s =
      let r = db.transaction (refresh_body refresh_token d) s in (refresh_answer d r.0, r.1)
