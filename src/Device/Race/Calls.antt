-- ===== src/Device/Race/Calls.antt =====
-- Every call on `DeviceAuthorizationService` marks or adds credentials.
use promptlens_v.Prelude.{
  ℕ, String, ◌≡◌, refl, sym, subst, false, ◌⊎◌, Option, none, some, List, [], ◌∷◌, ◌++◌, arith,
  Option-cases, inl, inr, change, any, count, ◌==◌, ℕ_eq, ap,
}
use promptlens_v.Store.{Prisma, Result, ok, err, insert, commit}
use promptlens_v.Schema.{Db, DeviceAuthorization, ConnectorCredential}
use promptlens_v.Actor.{AuthenticatedActor}
use promptlens_v.Device.{
  Crypto, Draw, RefreshState, CreateDeviceAuthorizationRequest, create_authorization, create_device,
  approve_body, approve_for, approve, poll_body, poll_row, poll_ready, claim, poll, refresh,
  refresh_body, refresh_row, refresh_usable, rotate, credential_for, credential_clash, unclaimed,
  used, live_relative, withdrawn, replaced,
}
use promptlens_v.Device.Poll.{with_approved, consume}
use promptlens_v.Device.Rotation.{rotate_row, rotate_inv}
use promptlens_v.Device.History.{Call, creates, approves_code, polls, refreshes, step}
use promptlens_v.Device.Race.Tokens.{
  Turns, same, marks, adds, Marks-used, Marks-withdrawn, Marks-replaced,
}

module _ (db : Prisma) (crypto : Crypto) where
  same-Turns : (rows rows' : List ConnectorCredential) → rows' ≡ rows → Turns rows rows'
  same-Turns rows rows' e = subst (Turns rows) (sym e) same

  claim_credentials :
      (a : DeviceAuthorization) (i t : ℕ) (d : Draw) (s : Db)
      → a.tenant_id ≡ some t
      → let new = credential_for db crypto t i d.new_family d in
        let rows = (commit s (claim db crypto a i d s)).1.credentials in
        (rows ≡ s.credentials)
        ⊎ ((any (credential_clash new) s.credentials ≡ false) × (rows ≡ s.credentials ++ new ∷ []))
  unfolding claim
  claim_credentials a i t d s e = ground (arith, selects, creates)
    where
      selects :
          db.update_many (with_approved a) (consume d) s.devices
          ≡ (change (with_approved a) (consume d) s.devices, count (with_approved a) s.devices)
      selects = db.update_many_lem _ _ _

      creates :
          db.create credential_clash (credential_for db crypto t i d.new_family d) s.credentials
          ≡ insert credential_clash (credential_for db crypto t i d.new_family d) s.credentials
      creates = db.create_lem _ _ _

  claim-Turns :
      (a : DeviceAuthorization) (i : ℕ) (d : Draw) (s : Db)
      → Turns s.credentials (commit s (claim db crypto a i d s)).1.credentials
  claim-Turns a i d s = elim (Option-cases a.tenant_id) [
    | inl missing ↦ same-Turns _ _ (unfold claim in ground arith)
    | inr (t, e) ↦ elim (claim_credentials a i t d s e) [
      | inl kept ↦ same-Turns _ _ kept
      | inr (free, new) ↦ subst (Turns s.credentials) (sym new) (adds _ free same)
    ]
  ]

  poll_row_claims :
      (a : DeviceAuthorization) (i : ℕ) (v : Option String) (d : Draw) (s : Db)
      → a.installation_id ≡ some i
      → let rows = (commit s (poll_row db crypto (some a) v d s)).1.credentials in
        (rows ≡ s.credentials) ⊎ (rows ≡ (commit s (claim db crypto a i d s)).1.credentials)
  unfolding poll_row poll_ready
  poll_row_claims a i v d s e = ground arith

  poll_row-Turns :
      (o : Option DeviceAuthorization) (v : Option String) (d : Draw) (s : Db)
      → Turns s.credentials (commit s (poll_row db crypto o v d s)).1.credentials
  poll_row-Turns none v d s = same-Turns _ _ (unfold poll_row in refl)
  poll_row-Turns (some a) v d s = elim (Option-cases a.installation_id) [
    | inl missing ↦ same-Turns _ _ (unfold poll_row in unfold poll_ready in ground arith)
    | inr (i, e) ↦ elim (poll_row_claims a i v d s e) [
      | inl kept ↦ same-Turns _ _ kept
      | inr claims ↦ subst (Turns s.credentials) (sym claims) (claim-Turns a i d s)
    ]
  ]

  reuse_inv :
      (c : ConnectorCredential) (d : Draw) (s s' : Db)
      → refresh_row db crypto (some c) d s ≡ ok (RefreshState.reuse, s')
      → s'.credentials
        ≡ change (live_relative c) (withdrawn d) (change (unclaimed c) (used d) s.credentials)
  unfolding refresh_row refresh_usable rotate
  reuse_inv c d s s' h = ground (arith, claims, withdraws)
    where
      claims :
          db.update_many (unclaimed c) (used d) s.credentials
          ≡ (change (unclaimed c) (used d) s.credentials, count (unclaimed c) s.credentials)
      claims = db.update_many_lem _ _ _

      withdraws :
          db.update_many
            (live_relative c)
            (withdrawn d)
            (change (unclaimed c) (used d) s.credentials)
          ≡ (
            change (live_relative c) (withdrawn d) (change (unclaimed c) (used d) s.credentials),
            count (live_relative c) (change (unclaimed c) (used d) s.credentials),
          )
      withdraws = db.update_many_lem _ _ _

  invalid_inv :
      (o : Option ConnectorCredential) (d : Draw) (s s' : Db)
      → refresh_row db crypto o d s ≡ ok (RefreshState.invalid, s')
      → s'.credentials ≡ s.credentials
  unfolding refresh_row refresh_usable rotate
  invalid_inv none d s s' h = ground arith
  invalid_inv (some c) d s s' h = ground arith

  pub refresh_row-Turns :
      (o : Option ConnectorCredential) (d : Draw) (s : Db)
      → Turns s.credentials (commit s (refresh_row db crypto o d s)).1.credentials
  refresh_row-Turns none d s = same-Turns _ _ (unfold refresh_row in refl)
  refresh_row-Turns (some c) d s = go (refresh_row db crypto (some c) d s) refl
    where
      go :
          (x : Result (RefreshState × Db))
          → refresh_row db crypto (some c) d s ≡ x
          → Turns s.credentials (commit s x).1.credentials
      go (err e) h = same
      go (ok (RefreshState.invalid, s')) h = same-Turns _ _ (invalid_inv (some c) d s s' h)
      go (ok (RefreshState.reuse, s')) h =
          subst (Turns s.credentials) (sym (reuse_inv c d s s' h)) (
            marks (unclaimed c) (used d) (Marks-used d)
              (marks (live_relative c) (withdrawn d) (Marks-withdrawn d) same))
      go (ok (RefreshState.issued i p, s')) h =
          let (_, _, _, rotated) = rotate_row db crypto c d s s' i p h in
          let (_, _, _, free, after) = rotate_inv db crypto c d _ s' i p rotated in
          subst (Turns s.credentials) (sym (ap (λ z. z.credentials) after)) (
            marks (unclaimed c) (used d) (Marks-used d)
              (adds _ free (marks (λ b. b.id == c.id) (replaced d) (Marks-replaced d) same)))

  create_credentials :
      (r : CreateDeviceAuthorizationRequest) (now id : ℕ) (code user_code : String) (s : Db)
      → (create_device db crypto r now id code user_code s).1.credentials ≡ s.credentials
  unfolding create_device create_authorization
  create_credentials r now id code user_code s = ground arith

  approve_credentials :
      (actor : AuthenticatedActor) (code : String) (project now id : ℕ) (s : Db)
      → (approve db crypto actor code project now id s).1.credentials ≡ s.credentials
  unfolding approve approve_body approve_for
  approve_credentials actor code project now id s = rw db.transaction_lem (ground arith)

  pub step-Turns : (c : Call) (s : Db) → Turns s.credentials (step db crypto c s).credentials
  unfolding step poll poll_body refresh refresh_body
  step-Turns (creates r now id code user_code) s =
      same-Turns _ _ (create_credentials r now id code user_code s)
  step-Turns (approves_code actor code project now id) s =
      same-Turns _ _ (approve_credentials actor code project now id s)
  step-Turns (polls code v d) s = rw db.transaction_lem (poll_row-Turns _ v d s)
  step-Turns (refreshes token d) s = rw db.transaction_lem (refresh_row-Turns _ d s)
