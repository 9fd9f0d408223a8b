-- ===== src/Admin/Support/Access.antt =====
-- Who can open a workspace to support.
use promptlens_v.Prelude.{
  ℕ, String, ◌≡◌, refl, ap, subst, ◌+◌, ◌*◌, true, Option, some, [], ◌∷◌, ◌++◌, arith, inl, inr,
  ◌⊎◌, In, In-change, In-append_one, Bool-cases, Option-cases, nat_eq_iff, ◌==◌, ℕ_eq, change,
  IsKey,
}
use promptlens_v.Store.{Prisma, ok}
use promptlens_v.Schema.{Db, SupportGrant, Tenant}
use promptlens_v.Schema.Enums.{is_owner}
use promptlens_v.Actor.{AuthenticatedActor}
use promptlens_v.Admin.{
  usable_grant, grant_of, approved_by, no_clash, assert_tenant_admin, assert_instance_admin,
}
use promptlens_v.Admin.Guard.{guarded_cases}
use promptlens_v.Admin.Support.{
  request_guard, approve_guard, request_support, approve_support, revoke_support, open_support,
  new_grant, withdrawn, request_support_body, approve_support_body, revoke_support_body,
  open_support_body,
}

module _ (db : Prisma) where
  -- One call of the support handlers, by any actor at any time.
  pub data SupportStep : Db → Db → Type 0 where
    request :
        (actor : AuthenticatedActor) (tenant : ℕ) (reason : String) (now id : ℕ) (s : Db)
        → SupportStep s (request_support db actor tenant reason now id s).1
    approve :
        (actor : AuthenticatedActor) (grant now : ℕ) (s : Db)
        → SupportStep s (approve_support db actor grant now s).1
    revoke :
        (actor : AuthenticatedActor) (grant now : ℕ) (s : Db)
        → SupportStep s (revoke_support db actor grant now s).1
    view :
        (actor : AuthenticatedActor) (tenant now : ℕ) (s : Db)
        → SupportStep s (open_support db actor tenant now s).1

  request_grants :
      (actor : AuthenticatedActor) (tenant : ℕ) (reason : String) (now id : ℕ) (s s' : Db)
      (g : SupportGrant)
      → request_support_body db actor tenant reason now id s ≡ ok (g, s')
      → s'.support_grants ≡ s.support_grants ++ new_grant actor tenant reason id ∷ []
  unfolding request_support_body
  request_grants actor tenant reason now id s s' g h =
      ground (arith, db.create_lem no_clash (new_grant actor tenant reason id) s.support_grants)

  revoke_grants :
      (actor : AuthenticatedActor) (grant now : ℕ) (s s' : Db)
      → revoke_support_body db actor grant now s ≡ ok (tt, s')
      → (n : ℕ) × (s'.support_grants ≡ change (λ b. b.id == n) (withdrawn now) s.support_grants)
  unfolding revoke_support_body
  revoke_grants actor grant now s s' h =
      elim (Option-cases (db.find_first (grant_of actor.tenant_id grant) s.support_grants)) [
        | inl e ↦ absurd (ground arith)
        | inr (g, e) ↦ (
          g.id,
          ground (
            arith,
            db.update_lem (λ (b : SupportGrant). b.id == g.id) (withdrawn now) s.support_grants,
          ),
        )
      ]

  approve_grants :
      (actor : AuthenticatedActor) (grant now : ℕ) (s s' : Db)
      → approve_support_body db actor grant now s ≡ ok (tt, s')
      → (g : SupportGrant) × In g s.support_grants
        × (g.tenant_id ≡ actor.tenant_id)
        × (s'.support_grants
            ≡ change
                (λ b. b.id == g.id)
                (approved_by actor.user_id (now + 60 * 60 * 1000))
                s.support_grants)
  unfolding approve_support_body
  approve_grants actor grant now s s' h =
      elim (Option-cases (db.find_first (grant_of actor.tenant_id grant) s.support_grants)) [
        | inl e ↦ absurd (ground arith)
        | inr (g, e) ↦
            let (fits, there) = db.found (grant_of actor.tenant_id grant) s.support_grants g e in
            (
              g,
              there,
              ground (arith, nat_eq_iff g.tenant_id actor.tenant_id),
              ground (
                arith,
                db.update_lem (λ (b : SupportGrant). b.id == g.id)
                    (approved_by actor.user_id (now + 60 * 60 * 1000)) s.support_grants,
              ),
            )
      ]

  view_grants :
      (actor : AuthenticatedActor) (tenant now : ℕ) (s s' : Db) (o : Option ℕ)
      → open_support_body db actor tenant now s ≡ ok (o, s')
      → s'.support_grants ≡ s.support_grants
  unfolding open_support_body
  view_grants actor tenant now s s' o h =
      elim (Option-cases (db.find_first (usable_grant tenant actor.user_id now) s.support_grants)) [
        | inl e ↦ absurd (ground arith)
        | inr (g, e) ↦ ground arith
      ]

  -- A grant of the second database was in the first, or comes from an owner's approval.
  abbrev pub Opened : (tenant : ℕ) → SupportGrant → (s s' : Db) → Type 0
  Opened tenant y s s' =
      In y s.support_grants
      ⊎ ((actor : AuthenticatedActor) × (grant : ℕ) × (now : ℕ) × (is_owner actor.role ≡ true)
          × (actor.tenant_id ≡ tenant)
          × (y.expires_at ≡ some (now + 60 * 60 * 1000))
          × (s' ≡ (approve_support db actor grant now s).1))

  request_opens :
      (t r later : ℕ) (y : SupportGrant) (actor : AuthenticatedActor) (tenant : ℕ) (reason : String)
      (now id : ℕ) (w : Db)
      → IsKey (λ g. g.id) w.support_grants
      → In y (request_support db actor tenant reason now id w).1.support_grants
      → usable_grant t r later y ≡ true
      → Opened t y w (request_support db actor tenant reason now id w).1
  unfolding request_support
  request_opens t r later y actor tenant reason now id w keyed i usable =
      elim (guarded_cases db (request_support_body db actor tenant reason now id) w
        (request_guard db actor tenant) reads) [
          | inl e ↦ inl (subst (λ (z : Db). In y z.support_grants) e i)
          | inr (g, s', h, e) ↦
              let j =
                subst (In y) (request_grants actor tenant reason now id w s' g h)
                  (subst (λ (z : Db). In y z.support_grants) e i) in
              elim (In-append_one y (new_grant actor tenant reason id) w.support_grants j) [
                | inl old ↦ inl old
                | inr new ↦ absurd (ground (arith, ap (λ (z : SupportGrant). z.approved_by_id) new))
              ]
        ]
    where
      reads : (u : Unit {0}) (z : Db) → request_guard db actor tenant w ≡ ok (u, z) → z ≡ w
      reads u z h = elim (Option-cases (db.find_first (λ (x : Tenant). x.id == tenant) w.tenants)) [
        | inl e ↦ ground arith
        | inr (x, e) ↦ ground arith
      ]

  revoke_opens :
      (t r later : ℕ) (y : SupportGrant) (actor : AuthenticatedActor) (grant now : ℕ) (w : Db)
      → IsKey (λ g. g.id) w.support_grants
      → In y (revoke_support db actor grant now w).1.support_grants
      → usable_grant t r later y ≡ true
      → Opened t y w (revoke_support db actor grant now w).1
  unfolding revoke_support
  revoke_opens t r later y actor grant now w keyed i usable =
      elim (guarded_cases db (revoke_support_body db actor grant now) w (assert_tenant_admin actor)
        (λ u z h. ground arith)) [
          | inl e ↦ inl (subst (λ (z : Db). In y z.support_grants) e i)
          | inr (_, s', h, e) ↦
              let (n, e2) = revoke_grants actor grant now w s' h in
              let (x, j, ex) =
                In-change (λ (b : SupportGrant). b.id == n) (withdrawn now) y w.support_grants
                  (subst (In y) e2 (subst (λ (z : Db). In y z.support_grants) e i)) in
              elim (Bool-cases (x.id == n)) [
                | inr other ↦
                    let same : x ≡ y = ground arith in
                    inl (subst (λ z. In z w.support_grants) same j)
                | inl gone ↦ absurd (ground arith)
              ]
        ]

  view_opens :
      (t r later : ℕ) (y : SupportGrant) (actor : AuthenticatedActor) (tenant now : ℕ) (w : Db)
      → IsKey (λ g. g.id) w.support_grants
      → In y (open_support db actor tenant now w).1.support_grants
      → usable_grant t r later y ≡ true
      → Opened t y w (open_support db actor tenant now w).1
  unfolding open_support
  view_opens t r later y actor tenant now w keyed i usable =
      elim (guarded_cases db (open_support_body db actor tenant now) w (assert_instance_admin actor)
        (λ u z h. ground arith)) [
          | inl e ↦ inl (subst (λ (z : Db). In y z.support_grants) e i)
          | inr (o, s', h, e) ↦ inl (
              subst (In y) (view_grants actor tenant now w s' o h)
                (subst (λ (z : Db). In y z.support_grants) e i))
        ]

  approve_opens :
      (t r later : ℕ) (y : SupportGrant) (actor : AuthenticatedActor) (grant now : ℕ) (w : Db)
      → IsKey (λ g. g.id) w.support_grants
      → In y (approve_support db actor grant now w).1.support_grants
      → usable_grant t r later y ≡ true
      → Opened t y w (approve_support db actor grant now w).1
  unfolding approve_support
  approve_opens t r later y actor grant now w keyed i usable =
      elim (Bool-cases (is_owner actor.role)) [
        | inr stranger ↦
            let e : (approve_support db actor grant now w).1 ≡ w = ground arith in
            inl (subst (λ (z : Db). In y z.support_grants) e i)
        | inl owner ↦
            elim (guarded_cases db (approve_support_body db actor grant now) w
              (approve_guard db actor) (λ u z h. ground arith)) [
                | inl e ↦ inl (subst (λ (z : Db). In y z.support_grants) e i)
                | inr (_, s', h, e) ↦
                    let (g, there, own, e2) = approve_grants actor grant now w s' h in
                    let (x, j, ex) =
                      In-change (λ (b : SupportGrant). b.id == g.id)
                        (approved_by actor.user_id (now + 60 * 60 * 1000)) y w.support_grants
                        (subst (In y) e2 (subst (λ (z : Db). In y z.support_grants) e i)) in
                    elim (Bool-cases (x.id == g.id)) [
                      | inr other ↦
                          let same : x ≡ y = ground arith in
                          inl (subst (λ z. In z w.support_grants) same j)
                      | inl same ↦
                          let one : x ≡ g = keyed x g j there ((nat_eq_iff _ _).0 same) in
                          inr (
                            actor,
                            grant,
                            now,
                            owner,
                            ground (
                              arith,
                              nat_eq_iff y.tenant_id t,
                              ap (λ (z : SupportGrant). z.tenant_id) one,
                            ),
                            ground arith,
                            refl,
                          )
                    ]
              ]
      ]

  -- Only an owner opens a workspace to support: a grant that is usable after a step was usable before
  -- it, or the step was an approval by an owner of the grant's workspace, and the grant ends one hour
  -- after that approval. The ids of the grants are keys of the table.
  pub SupportStep-Opened :
      (s s' : Db) (y : SupportGrant) (tenant requester later : ℕ)
      → SupportStep s s'
      → IsKey (λ g. g.id) s.support_grants
      → In y s'.support_grants
      → usable_grant tenant requester later y ≡ true
      → Opened tenant y s s'
  SupportStep-Opened _ _ y t r later (request actor tenant reason now id w) keyed i usable =
      request_opens t r later y actor tenant reason now id w keyed i usable
  SupportStep-Opened _ _ y t r later (revoke actor grant now w) keyed i usable =
      revoke_opens t r later y actor grant now w keyed i usable
  SupportStep-Opened _ _ y t r later (view actor tenant now w) keyed i usable =
      view_opens t r later y actor tenant now w keyed i usable
  SupportStep-Opened _ _ y t r later (approve actor grant now w) keyed i usable =
      approve_opens t r later y actor grant now w keyed i usable
