-- ===== src/Device/Poll.antt =====
-- What a poll of `DeviceAuthorizationService` does, on every branch.
use promptlens_v.Prelude.{
  ℕ, String, ◌≡◌, ◌<◌, refl, Bool, false, Option, some, [], ◌∷◌, ◌++◌, arith, Option-cases, inl,
  inr, count, change, ◌&&◌, ◌==◌, ℕ_eq, String_eq, In,
}
use promptlens_v.Store.{Prisma, Result, ok, err, insert, commit}
use promptlens_v.Schema.{Db, DeviceAuthorization, DeviceAuthorizationStatus}
use promptlens_v.Schema.Enums.{is_pending, is_approved}
use promptlens_v.Device.{
  Crypto, Draw, PollState, ConnectorTokenResponse, poll, poll_body, poll_row, poll_ready, claim,
  credential_for, verifier_fails, polled_at, credential_clash, token_response, poll_answer,
}

abbrev pub expire : DeviceAuthorization → DeviceAuthorization
expire b = record b { status = DeviceAuthorizationStatus.expired }

abbrev pub rest : Draw → DeviceAuthorization → DeviceAuthorization
rest d b = record b { last_polled_at = some d.now }

abbrev pub consume : Draw → DeviceAuthorization → DeviceAuthorization
consume d b = record b { status = DeviceAuthorizationStatus.consumed; last_polled_at = some d.now }

abbrev pub with_id : DeviceAuthorization → DeviceAuthorization → Bool
with_id a b = b.id == a.id

abbrev pub with_pending : DeviceAuthorization → DeviceAuthorization → Bool
with_pending a b = b.id == a.id && is_pending b.status

abbrev pub with_approved : DeviceAuthorization → DeviceAuthorization → Bool
with_approved a b = b.id == a.id && is_approved b.status

module _ (db : Prisma) (crypto : Crypto) where
  pub poll_row_inv :
      (a : DeviceAuthorization) (verifier : Option String) (d : Draw) (s s' : Db) (i : ℕ)
      (p : Option ℕ)
      → poll_row db crypto (some a) verifier d s ≡ ok (PollState.issued i p, s')
      → (verifier_fails db crypto a.code_challenge verifier ≡ false)
        × (d.now < a.expires_at)
        × (polled_at a.last_polled_at d.now ≡ false)
        × (a.status ≡ DeviceAuthorizationStatus.approved)
        × (a.installation_id ≡ some i)
        × (claim db crypto a i d s ≡ ok (PollState.issued i p, s'))
  unfolding poll_row poll_ready claim
  poll_row_inv a verifier d s s' i p h = ground arith

  pub claim_inv :
      (a : DeviceAuthorization) (d : Draw) (s s' : Db) (i j : ℕ) (p : Option ℕ)
      → claim db crypto a i d s ≡ ok (PollState.issued j p, s')
      → (t : ℕ) × (j ≡ i)
        × (p ≡ a.project_id)
        × (a.tenant_id ≡ some t)
        × (count (with_approved a) s.devices ≡ 1)
        × (s' ≡ record s {
          devices = change (with_approved a) (consume d) s.devices;
          credentials = s.credentials ++ credential_for db crypto t i d.new_family d ∷ [];
        })
  unfolding claim
  claim_inv a d s s' i j p h = elim (Option-cases a.tenant_id) [
    | inl missing ↦ absurd (ground arith)
    | inr (t, e) ↦ (
      t,
      ground arith,
      ground arith,
      e,
      ground (arith, selects),
      ground (arith, selects, creates t),
    )
  ]
    where
      selects :
          db.update_many (with_approved a) (consume d) s.devices
          ≡ (change (with_approved a) (consume d) s.devices, count (with_approved a) s.devices)
      selects = db.update_many_lem _ _ _

      creates :
          (t : ℕ)
          → db.create credential_clash (credential_for db crypto t i d.new_family d) s.credentials
            ≡ insert credential_clash (credential_for db crypto t i d.new_family d) s.credentials
      creates t = db.create_lem _ _ _

  -- What holds when a poll hands out tokens.
  pub record Issue (code : String) (v : Option String) (d : Draw) (s s' : Db)
      (r : ConnectorTokenResponse) : Type 0 where
    pub authorization : DeviceAuthorization
    pub tenant : ℕ
    pub there : In authorization s.devices
    pub named : authorization.device_code_hash ≡ crypto.digest code
    pub verified : verifier_fails db crypto authorization.code_challenge v ≡ false
    pub live : d.now < authorization.expires_at
    pub rested : polled_at authorization.last_polled_at d.now ≡ false
    pub approved : authorization.status ≡ DeviceAuthorizationStatus.approved
    pub installed : authorization.installation_id ≡ some r.installation_id
    pub owned : authorization.tenant_id ≡ some tenant
    pub answer : r ≡ token_response db crypto d r.installation_id authorization.project_id
    pub after : s' ≡ record s {
      devices = change (with_approved authorization) (consume d) s.devices;
      credentials =
          s.credentials ++ credential_for db crypto tenant r.installation_id d.new_family d ∷ [];
    }

  Issue-from :
      (code : String) (v : Option String) (d : Draw) (s s' : Db) (r : ConnectorTokenResponse)
      (a : DeviceAuthorization) (i : ℕ) (p : Option ℕ)
      → db.find_first (λ a. a.device_code_hash == crypto.digest code) s.devices ≡ some a
      → poll_row db crypto (some a) v d s ≡ ok (PollState.issued i p, s')
      → r ≡ token_response db crypto d i p
      → Issue code v d s s' r
  unfolding token_response
  Issue-from code v d s s' r a i p found e answer =
      let (verified, live, rested, approved, installed, claimed) = poll_row_inv a v d s s' i p e in
      let (t, _, same_p, owned, _, after) = claim_inv a d s s' i i p claimed in
      let (named, there) = db.found _ s.devices a found in
      record {
        authorization = a;
        tenant = t;
        there = there;
        named = (String_eq.same_iff _ _).0 named;
        verified = verified;
        live = live;
        rested = rested;
        approved = approved;
        installed = ground arith;
        owned = owned;
        answer = ground arith;
        after = ground arith;
      }

  pub answered :
      (d : Draw) (s : Db) (r : ConnectorTokenResponse) (x : Result (PollState × Db))
      → poll_answer db crypto d (commit s x).0 ≡ ok r
      → (i : ℕ) × (p : Option ℕ) × (x ≡ ok (PollState.issued i p, (commit s x).1))
        × (r ≡ token_response db crypto d i p)
  answered d s r (ok (PollState.issued i p, s')) h = (i, p, refl, ground arith)
  answered d s r (ok (PollState.invalid, s')) h = cc
  answered d s r (ok (PollState.invalid_verifier, s')) h = cc
  answered d s r (ok (PollState.expired, s')) h = cc
  answered d s r (ok (PollState.slow_down, s')) h = cc
  answered d s r (ok (PollState.pending, s')) h = cc
  answered d s r (ok (PollState.denied, s')) h = cc
  answered d s r (err e) h = cc

  Issue-body :
      (code : String) (v : Option String) (d : Draw) (s s' : Db) (r : ConnectorTokenResponse)
      (i : ℕ) (p : Option ℕ)
      → poll_body db crypto code v d s ≡ ok (PollState.issued i p, s')
      → r ≡ token_response db crypto d i p
      → Issue code v d s s' r
  unfolding poll_body
  Issue-body code v d s s' r i p e answer = elim (Option-cases row) [
    | inl none_found ↦ absurd (unfold poll_row in ground arith)
    | inr (a, found) ↦ Issue-from code v d s s' r a i p found (ground arith) answer
  ]
    where
      row : Option DeviceAuthorization
      row = db.find_first (λ a. a.device_code_hash == crypto.digest code) s.devices

  -- A poll hands out tokens only if the device code's authorization is approved and bound to an
  -- installation and a workspace, not expired, not polled within the last five seconds, and the verifier
  -- passes the PKCE check. It consumes the authorization and adds one credential, the first of a new
  -- family, that holds the hashes of the two tokens in the answer; no other table changes.
  pub poll-Issue :
      (code : String) (v : Option String) (d : Draw) (s : Db) (r : ConnectorTokenResponse)
      → (poll db crypto code v d s).0 ≡ ok r
      → Issue code v d s (poll db crypto code v d s).1 r
  unfolding poll
  poll-Issue code v d s r h =
      let (i, p, e, answer) =
        answered d s r (poll_body db crypto code v d s) (rw db.transaction_lem at h) in
      rw db.transaction_lem (Issue-body code v d s _ r i p e answer)
