-- ===== src/Admin/Connectors.antt =====
-- `revokeConnector`: none of the tokens of the installation is accepted any more.
use promptlens_v.Prelude.{
  ℕ, String, ◌≡◌, ◌≢◌, sym, subst, Bool, ◌&&◌, some, arith, inl, inr, change, In, change-In,
  Bool-cases, Option-cases, nat_eq_iff, ◌==◌, ℕ_eq, if◌then◌else◌, IsKey, keyed_change,
}
use promptlens_v.Store.{Prisma, ok, committed}
use promptlens_v.Schema.{Db, ConnectorCredential, ConnectorInstallation}
use promptlens_v.Actor.{AuthenticatedActor, AuthenticatedConnector}
use promptlens_v.Device.{Crypto, authenticate}
use promptlens_v.Device.Authenticate.{revoked_refused}
use promptlens_v.Admin.{
  revoke_connector_body, revoke_connector, live_credential, dropped, disabled, is_tenant_admin,
}

module _ (db : Prisma) where
  revoke_inv :
      (actor : AuthenticatedActor) (connector now : ℕ) (s s' : Db)
      → revoke_connector_body db actor connector now s ≡ ok (tt, s')
      → s'.credentials ≡ change (live_credential connector) (dropped now) s.credentials
  unfolding revoke_connector_body
  revoke_inv actor connector now s s' h = elim (Option-cases (db.find_first mine s.installations)) [
    | inl e ↦ absurd (ground arith)
    | inr (i, e) ↦
        let same : i.id ≡ connector =
          ground (arith, db.found mine s.installations i e, nat_eq_iff i.id connector) in
        subst (λ n. s'.credentials ≡ change (live_credential n) (dropped now) s.credentials) same
          (ground (
            arith,
            db.update_lem (λ (x : ConnectorInstallation). x.id == i.id) (disabled now)
                s.installations,
            db.update_many_lem (live_credential i.id) (dropped now) s.credentials,
          ))
  ]
    where
      mine : ConnectorInstallation → Bool
      mine i = i.id == connector && i.tenant_id == actor.tenant_id

  revoked :
      (actor : AuthenticatedActor) (connector now : ℕ) (s : Db)
      → (revoke_connector db actor connector now s).0 ≡ ok tt
      → (revoke_connector db actor connector now s).1.credentials
        ≡ change (live_credential connector) (dropped now) s.credentials
  unfolding revoke_connector
  revoked actor connector now s h = elim (Bool-cases (is_tenant_admin actor.role)) [
    | inr stranger ↦ absurd (ground arith)
    | inl trusted ↦
        rw (revoke_connector, trusted, db.transaction_lem)
          (revoke_inv actor connector now s _ (
            committed s (revoke_connector_body db actor connector now s) tt
              (rw (revoke_connector, trusted, db.transaction_lem) at h)))
  ]

  -- After a connector was revoked, no access token of any of its credentials is accepted, at any
  -- time: the access tokens are keys of the table before the call.
  pub revoke_connector_locks_out :
      (crypto : Crypto) (actor : AuthenticatedActor) (connector now later : ℕ) (token : String)
      (s : Db) (c : ConnectorCredential) (who : AuthenticatedConnector)
      → IsKey (λ x. x.access_token_hash) s.credentials
      → In c s.credentials
      → c.installation_id ≡ connector
      → c.access_token_hash ≡ crypto.digest token
      → (revoke_connector db actor connector now s).0 ≡ ok tt
      → authenticate db crypto (some token) later (revoke_connector db actor connector now s).1
        ≢ ok who
  revoke_connector_locks_out crypto actor connector now later token s c who keyed here owner hash
        done =
      revoked_refused db crypto token later (revoke_connector db actor connector now s).1 after who
        (subst (IsKey (λ x. x.access_token_hash)) (sym e) (
          keyed_change (λ x. x.access_token_hash) s.credentials keyed (live_credential connector)
            (dropped now) (λ x i. ground arith)))
        (subst (In after) (sym e)
          (change-In (live_credential connector) (dropped now) c s.credentials here))
        (ground arith) (ground (arith, nat_eq_iff c.installation_id connector))
    where
      e :
          (revoke_connector db actor connector now s).1.credentials
          ≡ change (live_credential connector) (dropped now) s.credentials
      e = revoked actor connector now s done

      after : ConnectorCredential
      after = if live_credential connector c then dropped now c else c
