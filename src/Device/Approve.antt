-- ===== src/Device/Approve.antt =====
-- What `DeviceAuthorizationService.approve` does.
use promptlens_v.Prelude.{
  ℕ, String, ◌≡◌, ◌<◌, ◌≤◌, Bool, true, Option, some, [], ◌∷◌, ◌++◌, arith, Option-cases, inl, inr,
  change, In, ◌==◌, String_eq, ℕ_eq, nat_eq_iff, any_of_In, IsKey, sym, ◌∙◌,
}
use promptlens_v.Store.{Prisma, committed, ok, err, insert, modify, bad_request}
use promptlens_v.Schema.{Db, DeviceAuthorization, DeviceAuthorizationStatus, Project, ProjectStatus}
use promptlens_v.Actor.{AuthenticatedActor}
use promptlens_v.Device.{
  Crypto, approve, approve_body, approve_for, in_tenant, admit, installation_for, approved_event,
  never,
}
use promptlens_v.Device.Poll.{with_id, expire}

module _ (db : Prisma) (crypto : Crypto) where
  -- What holds when an approval succeeds.
  pub record Approval (actor : AuthenticatedActor) (code : String) (project_id now id : ℕ)
      (s s' : Db) : Type 0 where
    pub authorization : DeviceAuthorization
    pub project : Project
    pub there : In authorization s.devices
    pub named : authorization.user_code ≡ crypto.to_upper_case code
    pub pending : authorization.status ≡ DeviceAuthorizationStatus.pending
    pub live : now < authorization.expires_at
    pub chosen : In project s.projects
    pub wanted : project.id ≡ project_id
    pub same_tenant : project.tenant_id ≡ actor.tenant_id
    pub open_project : project.status ≡ ProjectStatus.active
    pub after : s' ≡ record s {
      installations =
          s.installations ++ installation_for db crypto actor authorization project id ∷ [];
      devices = change (with_id authorization) (admit actor project.id id) s.devices;
      audit = s.audit ++ approved_event db crypto actor authorization id ∷ [];
    }

  approve_for_inv :
      (actor : AuthenticatedActor) (project id : ℕ) (a : DeviceAuthorization) (s s' : Db)
      (p : Project)
      → db.find_first (in_tenant actor project) s.projects ≡ some p
      → approve_for db crypto actor project a id s ≡ ok (tt, s')
      → s' ≡ record s {
        installations = s.installations ++ installation_for db crypto actor a p id ∷ [];
        devices = change (with_id a) (admit actor p.id id) s.devices;
        audit = s.audit ++ approved_event db crypto actor a id ∷ [];
      }
  unfolding approve_for
  approve_for_inv actor project id a s s' p e h = ground (arith, installs, updates, audits)
    where
      installs :
          db.create never (installation_for db crypto actor a p id) s.installations
          ≡ insert never (installation_for db crypto actor a p id) s.installations
      installs = db.create_lem _ _ _

      updates :
          db.update (with_id a) (admit actor p.id id) s.devices
          ≡ modify (with_id a) (admit actor p.id id) s.devices
      updates = db.update_lem _ _ _

      audits :
          db.create never (approved_event db crypto actor a id) s.audit
          ≡ insert never (approved_event db crypto actor a id) s.audit
      audits = db.create_lem _ _ _

  approve_body_inv :
      (actor : AuthenticatedActor) (code : String) (project now id : ℕ) (s s' : Db)
      → approve_body db crypto actor code project now id s ≡ ok (tt, s')
      → (a : DeviceAuthorization) × (db.find_first
            (λ b. b.user_code == crypto.to_upper_case code)
            s.devices
          ≡ some a)
        × (a.status ≡ DeviceAuthorizationStatus.pending)
        × (now < a.expires_at)
        × (approve_for db crypto actor project a id s ≡ ok (tt, s'))
  unfolding approve_body
  approve_body_inv actor code project now id s s' h = elim (Option-cases row) [
    | inl e ↦ absurd (ground arith)
    | inr (a, e) ↦ (a, e, ground arith, ground arith, ground arith)
  ]
    where
      row : Option DeviceAuthorization
      row = db.find_first (λ b. b.user_code == crypto.to_upper_case code) s.devices

  in_tenant_facts :
      (actor : AuthenticatedActor) (project : ℕ) (p : Project)
      → in_tenant actor project p ≡ true
      → (p.id ≡ project) × (p.tenant_id ≡ actor.tenant_id) × (p.status ≡ ProjectStatus.active)
  in_tenant_facts actor project p h = ground arith

  Approval-from :
      (actor : AuthenticatedActor) (code : String) (project now id : ℕ) (s s' : Db)
      → approve_body db crypto actor code project now id s ≡ ok (tt, s')
      → Approval actor code project now id s s'
  Approval-from actor code project now id s s' h =
      let (a, found, pending, live, rest) = approve_body_inv actor code project now id s s' h in
      let (named, there) = db.found _ s.devices a found in
      elim (Option-cases (db.find_first (in_tenant actor project) s.projects)) [
        | inl e ↦ absurd (unfold approve_for in ground arith)
        | inr (p, e) ↦
            let (fits, chosen) = db.found _ s.projects p e in
            let (wanted, same_tenant, open_project) = in_tenant_facts actor project p fits in
            record {
              authorization = a;
              project = p;
              there = there;
              named = (String_eq.same_iff _ _).0 named;
              pending = pending;
              live = live;
              chosen = chosen;
              wanted = wanted;
              same_tenant = same_tenant;
              open_project = open_project;
              after = approve_for_inv actor project id a s s' p e rest;
            }
      ]

  -- An approval that succeeds found a pending authorization with the upper-cased code, before its
  -- expiry, and an active project of the actor's own workspace with the id that was asked for. It
  -- creates one active installation for that project, binds the authorization to the actor, the
  -- workspace, the project and the installation, and records one audit event; no other table changes.
  pub approve-Approval :
      (actor : AuthenticatedActor) (code : String) (project now id : ℕ) (s : Db)
      → (approve db crypto actor code project now id s).0 ≡ ok tt
      → Approval actor code project now id s (approve db crypto actor code project now id s).1
  unfolding approve
  approve-Approval actor code project now id s h = rw db.transaction_lem (
      Approval-from actor code project now id s _ (
        committed s (approve_body db crypto actor code project now id s) tt
          (rw db.transaction_lem at h)))

  -- A pending authorization past its expiry is refused, and nothing is recorded: the transaction that
  -- marks it expired throws, so the mark is rolled back with it.
  pub approve_expired :
      (actor : AuthenticatedActor) (code : String) (project now id : ℕ) (s : Db)
      (a : DeviceAuthorization)
      → IsKey (λ x. x.user_code) s.devices
      → In a s.devices
      → a.user_code ≡ crypto.to_upper_case code
      → a.status ≡ DeviceAuthorizationStatus.pending
      → a.expires_at ≤ now
      → approve db crypto actor code project now id s
        ≡ (err (bad_request "Device authorization expired."), s)
  unfolding approve approve_body
  approve_expired actor code project now id s a keyed here named pending late =
      elim (Option-cases (db.find_first test s.devices)) [
        | inl missing ↦ absurd (
            ground (
              arith,
              any_of_In test a s.devices here,
              String_eq.same_iff a.user_code (crypto.to_upper_case code),
              db.missed test s.devices,
            ))
        | inr (b, found) ↦
            let (named_b, there) = db.found test s.devices b found in
            let one : b ≡ a =
              keyed b a there here ((String_eq.same_iff _ _).0 named_b ∙ sym named) in
            rw (db.transaction_lem, approve_body, found, one)
              (ground (
                arith,
                db.update_lem (with_id a) (expire) s.devices,
                any_of_In (with_id a) a s.devices here,
                nat_eq_iff a.id a.id,
              ))
      ]
    where
      test : DeviceAuthorization → Bool
      test b = b.user_code == crypto.to_upper_case code
