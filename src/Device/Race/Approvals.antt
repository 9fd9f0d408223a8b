-- ===== src/Device/Race/Approvals.antt =====
-- An approval that overlaps with others writes over what they have done.
use promptlens_v.Prelude.{
  ℕ, ◌≡◌, ◌<◌, subst, true, some, arith, In, change-In, any_of_In, any_nothing, nat_eq_iff, ℕ_eq,
  if◌then◌else◌, change, [], ◌∷◌, ◌++◌,
}
use promptlens_v.Store.{Prisma, ok, insert, modify}
use promptlens_v.Schema.{Db, DeviceAuthorization, DeviceAuthorizationStatus, Project}
use promptlens_v.Actor.{AuthenticatedActor}
use promptlens_v.Device.{
  Crypto, approve_for, in_tenant, admit, installation_for, approved_event, never,
}
use promptlens_v.Device.Poll.{with_id}
use promptlens_v.Device.Race.{approve_on}

module _ (db : Prisma) (crypto : Crypto) where
  approve_for_goes :
      (actor : AuthenticatedActor) (project id : ℕ) (a x : DeviceAuthorization) (s : Db)
      (p : Project)
      → db.find_first (in_tenant actor project) s.projects ≡ some p
      → In x s.devices
      → with_id a x ≡ true
      → approve_for db crypto actor project a id s
        ≡ ok (
          tt,
          record s {
            installations = s.installations ++ installation_for db crypto actor a p id ∷ [];
            devices = change (with_id a) (admit actor p.id id) s.devices;
            audit = s.audit ++ approved_event db crypto actor a id ∷ [];
          },
        )
  unfolding approve_for
  approve_for_goes actor project id a x s p e there same_id = ground (
    arith,
    installs,
    updates,
    audits,
    any_of_In (with_id a) x s.devices there same_id,
    any_nothing s.installations,
    any_nothing s.audit,
  )
    where
      installs :
          db.create never (installation_for db crypto actor a p id) s.installations
          ≡ insert never (installation_for db crypto actor a p id) s.installations
      installs = db.create_lem _ _ _

      updates :
          db.update (with_id a) (admit actor p.id id) s.devices
          ≡ modify (with_id a) (admit actor p.id id) s.devices
      updates = db.update_lem _ _ _

      audits :
          db.create never (approved_event db crypto actor a id) s.audit
          ≡ insert never (approved_event db crypto actor a id) s.audit
      audits = db.create_lem _ _ _

  -- An approval that read an authorization while it was pending and live, and goes on later, succeeds
  -- where the project is found and the authorization is still in the table, whichever status it has by
  -- then: also one whose code has been exchanged for tokens has the status approved again, bound to
  -- this actor's workspace and to a new installation.
  pub late_approval_reopens :
      (actor : AuthenticatedActor) (project now id : ℕ) (a x : DeviceAuthorization) (s : Db)
      (p : Project)
      → a.status ≡ DeviceAuthorizationStatus.pending
      → now < a.expires_at
      → db.find_first (in_tenant actor project) s.projects ≡ some p
      → In x s.devices
      → x.id ≡ a.id
      → ((approve_on db crypto actor project now id (some a) s).0 ≡ ok tt)
        × In
            (admit actor p.id id x)
            (approve_on db crypto actor project now id (some a) s).1.devices
  unfolding approve_on
  late_approval_reopens actor project now id a x s p pending live e there same_id =
      let fits : with_id a x ≡ true = (nat_eq_iff x.id a.id).1 same_id in
      let goes = approve_for_goes actor project id a x s p e there fits in
      ground (arith, goes, reopened fits)
    where
      reopened :
          with_id a x ≡ true
          → In (admit actor p.id id x) (change (with_id a) (admit actor p.id id) s.devices)
      reopened fits =
          subst
            (λ b.
              In (if b then admit actor p.id id x else x)
                (change (with_id a) (admit actor p.id id) s.devices))
            fits (change-In (with_id a) (admit actor p.id id) x s.devices there)
