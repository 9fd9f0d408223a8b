-- ===== src/Device/Authenticate.antt =====
-- Which access tokens `DeviceAuthorizationService.authenticate` accepts.
use promptlens_v.Prelude.{
  ℕ, String, ◌≡◌, ◌≢◌, ◌<◌, refl, sym, ap, ◌∙◌, Bool, false, Option, none, some, arith,
  Option-cases, Bool-cases, inl, inr, ◌==◌, String_eq, ℕ_eq, In, IsKey, is_none, nat_eq_iff,
}
use promptlens_v.Store.{Prisma, ok}
use promptlens_v.Schema.{Db, ConnectorCredential, ConnectorInstallation, ConnectorStatus}
use promptlens_v.Actor.{AuthenticatedConnector}
use promptlens_v.Device.{Crypto, Draw, refresh, authenticate, check_connector, invalid_token}
use promptlens_v.Device.Refresh.{IsKeyed, refresh_reuse}

-- What holds when an access token is accepted.
pub record Authentic (crypto : Crypto) (token : String) (now : ℕ) (s : Db)
    (who : AuthenticatedConnector) : Type 0 where
  pub credential : ConnectorCredential
  pub installation : ConnectorInstallation
  pub held : In credential s.credentials
  pub named : credential.access_token_hash ≡ crypto.digest token
  pub live : credential.revoked_at ≡ none
  pub early : now < credential.access_expires_at
  pub installed : In installation s.installations
  pub owner : installation.id ≡ credential.installation_id
  pub active : installation.status ≡ ConnectorStatus.active
  pub who_is : who ≡ record {
    installation_id = installation.id;
    tenant_id = installation.tenant_id;
    user_id = installation.created_by_id;
    default_project_id = installation.default_project_id;
    platform = installation.platform;
  }

module _ (db : Prisma) (crypto : Crypto) where
  check_inv :
      (c : ConnectorCredential) (i : ConnectorInstallation) (now : ℕ) (who : AuthenticatedConnector)
      → check_connector db crypto (some c) (some i) now ≡ ok who
      → (c.revoked_at ≡ none)
        × (now < c.access_expires_at)
        × (i.status ≡ ConnectorStatus.active)
        × (who ≡ record {
          installation_id = i.id;
          tenant_id = i.tenant_id;
          user_id = i.created_by_id;
          default_project_id = i.default_project_id;
          platform = i.platform;
        })
  unfolding check_connector invalid_token
  check_inv c i now who h = ground arith

  abbrev by_access : (token : String) → ConnectorCredential → Bool
  by_access token c = c.access_token_hash == crypto.digest token

  abbrev by_owner : ConnectorCredential → ConnectorInstallation → Bool
  by_owner c i = i.id == c.installation_id

  -- An accepted token belongs to a credential that is neither revoked nor expired, of an active
  -- installation; the connector acts for the tenant, project and platform of that installation.
  pub authenticate-Authentic :
      (token : Option String) (now : ℕ) (s : Db) (who : AuthenticatedConnector)
      → authenticate db crypto token now s ≡ ok who
      → (t : String) × (token ≡ some t) × Authentic crypto t now s who
  unfolding authenticate
  authenticate-Authentic none now s who h = cc
  authenticate-Authentic (some t) now s who h = elim (Bool-cases (t == "")) [
    | inl empty ↦ absurd (ground arith)
    | inr text ↦ elim (Option-cases (db.find_first (by_access t) s.credentials)) [
      | inl missing ↦ absurd (unfold check_connector invalid_token in ground arith)
      | inr (c, found) ↦ elim (Option-cases (db.find_first (by_owner c) s.installations)) [
        | inl missing ↦ absurd (unfold check_connector invalid_token in ground arith)
        | inr (i, found_i) ↦
            let (live, early, active, who_is) = check_inv c i now who (ground arith) in
            let (named, held) = db.found (by_access t) s.credentials c found in
            let (owner, installed) = db.found (by_owner c) s.installations i found_i in
            (
              t,
              refl,
              record {
                credential = c;
                installation = i;
                held = held;
                named = (String_eq.same_iff _ _).0 named;
                live = live;
                early = early;
                installed = installed;
                owner = (nat_eq_iff _ _).0 owner;
                active = active;
                who_is = who_is;
              },
            )
      ]
    ]
  ]

  -- The access token of a revoked credential is refused, at any time.
  pub revoked_refused :
      (token : String) (now : ℕ) (s : Db) (c : ConnectorCredential) (who : AuthenticatedConnector)
      → IsKey (λ x. x.access_token_hash) s.credentials
      → In c s.credentials
      → c.access_token_hash ≡ crypto.digest token
      → is_none c.revoked_at ≡ false
      → authenticate db crypto (some token) now s ≢ ok who
  revoked_refused token now s c who keyed here named revoked h =
      let (t, e, a) = authenticate-Authentic (some token) now s who h in
      let same : a.credential ≡ c =
        keyed a.credential c a.held here (a.named ∙ ap crypto.digest (ground arith) ∙ sym named) in
      absurd (ground (arith, a.live, ap (λ x. x.revoked_at) same))

  -- A used refresh token comes back before the end of its term, its credential is not revoked, and ids
  -- and refresh tokens are keys of the table: after that call no access token of its family is
  -- accepted any more, at any time, where access tokens are keys of the table after the call.
  pub reuse_locks_out :
      (token access : String) (d : Draw) (now : ℕ) (s : Db) (c y : ConnectorCredential)
      (who : AuthenticatedConnector)
      → IsKeyed s.credentials
      → In c s.credentials
      → c.refresh_token_hash ≡ crypto.digest token
      → c.revoked_at ≡ none
      → d.now < c.refresh_expires_at
      → is_none c.used_at ≡ false
      → let s1 = (refresh db crypto token d s).1 in
        IsKey (λ x. x.access_token_hash) s1.credentials
        → In y s1.credentials
        → y.family_id ≡ c.family_id
        → y.access_token_hash ≡ crypto.digest access
        → authenticate db crypto (some access) now s1 ≢ ok who
  reuse_locks_out token access d now s c y who keyed here named live early was_used keyed1 there
        family hash =
      revoked_refused access now _ y who keyed1 there hash (
        (refresh_reuse db crypto token d s c keyed here named live early was_used).1 y there family)
