-- ===== src/Admin/Race.antt =====
-- Two role changes that overlap.
use promptlens_v.Prelude.{
  ℕ, ◌≡◌, ◌≢◌, refl, ◌≤◌, ◌+◌, Bool, true, false, ◌&&◌, List, [], ◌∷◌, arith, some, any, count,
  change, In, change-In, any_nothing, any_of_In, ℕ_eq, nat_eq_iff, if◌then◌else◌, subst, sym,
}
use promptlens_v.Store.{Prisma, ok, modify, insert, commit}
use promptlens_v.Store.Single.{count_of_In}
use promptlens_v.Schema.{Db, Membership, MembershipRole, AuditEvent, text}
use promptlens_v.Schema.Enums.{is_owner}
use promptlens_v.Actor.{AuthenticatedActor}
use promptlens_v.Admin.{
  membership_of, owner_in, with_role, member_to_change, change_role, event_by, no_clash, role_name,
}

module _ {R : Type 0} (p q : R → Bool) where
  -- A change that takes the test from every row it selects.
  count-change_none :
      (f : R → R) (rows : List R)
      → ((x : R) → q (f x) ≡ false)
      → count q (change p f rows) + count (λ x. p x && q x) rows ≡ count q rows
  count-change_none f [] lost = refl
  count-change_none f (x ∷ rows) lost = ground (arith, lost x, count-change_none f rows lost)

-- No row passes a test that counts none.
none_of_count : {R : Type 0} (q : R → Bool) (rows : List R) → count q rows ≡ 0 → any q rows ≡ false
none_of_count q [] h = refl
none_of_count q (x ∷ rows) h = ground (arith, none_of_count q rows)

module _ (db : Prisma) where
  -- What the checks of a role change let through.
  change_allowed :
      (actor : AuthenticatedActor) (user : ℕ) (role : MembershipRole) (s : Db) (m : Membership)
      → db.find_first (membership_of actor.tenant_id user) s.memberships ≡ some m
      → is_owner actor.role ≡ true
      → 2 ≤ count (owner_in actor.tenant_id) s.memberships
      → member_to_change db actor user role s ≡ ok (m, s)
  change_allowed actor user role s m found owner two =
      ground (arith, db.row_count_lem (owner_in actor.tenant_id) s.memberships)

  role_changed :
      (actor : AuthenticatedActor) (user : ℕ) (role : MembershipRole) (s : Db) (m : Membership)
      → any (membership_of actor.tenant_id user) s.memberships ≡ true
      → (commit s (change_role db actor user role m s)).1.memberships
        ≡ change (membership_of actor.tenant_id user) (with_role role) s.memberships
  role_changed actor user role s m there = ground (arith, updates, records, any_nothing s.audit)
    where
      updates :
          db.update (membership_of actor.tenant_id user) (with_role role) s.memberships
          ≡ modify (membership_of actor.tenant_id user) (with_role role) s.memberships
      updates = db.update_lem _ _ _

      event : AuditEvent
      event =
          event_by actor "membership.role_changed" "user" user
            (("from", text (role_name m.role)) ∷ ("to", text (role_name role)) ∷ [])

      records : db.create no_clash event s.audit ≡ insert no_clash event s.audit
      records = db.create_lem _ _ _

  -- A role change that passed its checks takes an owner away.
  owners_fewer :
      (actor : AuthenticatedActor) (user : ℕ) (role : MembershipRole) (rows : List Membership)
      (m : Membership)
      → In m rows
      → membership_of actor.tenant_id user m ≡ true
      → owner_in actor.tenant_id m ≡ true
      → is_owner role ≡ false
      → count
            (owner_in actor.tenant_id)
            (change (membership_of actor.tenant_id user) (with_role role) rows)
          + 1
        ≤ count (owner_in actor.tenant_id) rows
  owners_fewer actor user role rows m there fits owner demoted =
      let p = membership_of actor.tenant_id user in
      let q = owner_in actor.tenant_id in
      omega (
        arith,
        count-change_none p q (with_role role) rows (λ x. ground arith),
        count_of_In (λ x. p x && q x) m rows there (ground arith),
      )

  -- An owner's row is written with another role: the workspace has an owner less.
  owner_demoted :
      (actor : AuthenticatedActor) (user : ℕ) (role : MembershipRole) (s : Db) (m : Membership)
      → In m s.memberships
      → membership_of actor.tenant_id user m ≡ true
      → is_owner m.role ≡ true
      → is_owner role ≡ false
      → count
            (owner_in actor.tenant_id)
            (commit s (change_role db actor user role m s)).1.memberships
          + 1
        ≤ count (owner_in actor.tenant_id) s.memberships
  owner_demoted actor user role s m there fits owner demoted =
      rw (role_changed actor user role s m (any_of_In _ m s.memberships there fits))
        (owners_fewer actor user role s.memberships m there fits (ground arith) demoted)

  -- The row of another member is as it was.
  others_kept :
      (actor : AuthenticatedActor) (user : ℕ) (role : MembershipRole) (s : Db) (m x : Membership)
      → any (membership_of actor.tenant_id user) s.memberships ≡ true
      → In x s.memberships
      → membership_of actor.tenant_id user x ≡ false
      → In x (commit s (change_role db actor user role m s)).1.memberships
  others_kept actor user role s m x some_row there other =
      rw (role_changed actor user role s m some_row) (
        subst
          (λ b.
            In (if b then with_role role x else x)
              (change (membership_of actor.tenant_id user) (with_role role) s.memberships))
          other
          (change-In (membership_of actor.tenant_id user) (with_role role) x s.memberships there))

  -- Two owners of a workspace that has no other who change the roles of each other at once: both
  -- changes pass the check that an owner is left, since each counts both, and no owner is left.
  pub owners_lost :
      (actor actor' : AuthenticatedActor) (role role' : MembershipRole) (s : Db) (m m' : Membership)
      → actor'.tenant_id ≡ actor.tenant_id
      → is_owner actor.role ≡ true
      → is_owner actor'.role ≡ true
      → actor.user_id ≢ actor'.user_id
      → db.find_first (membership_of actor.tenant_id actor'.user_id) s.memberships ≡ some m
      → db.find_first (membership_of actor'.tenant_id actor.user_id) s.memberships ≡ some m'
      → is_owner m.role ≡ true
      → is_owner m'.role ≡ true
      → count (owner_in actor.tenant_id) s.memberships ≡ 2
      → is_owner role ≡ false
      → is_owner role' ≡ false
      → let s1 = (commit s (change_role db actor actor'.user_id role m s)).1 in
        let s2 = (commit s1 (change_role db actor' actor.user_id role' m' s1)).1 in
        (member_to_change db actor actor'.user_id role s ≡ ok (m, s))
        × (member_to_change db actor' actor.user_id role' s ≡ ok (m', s))
        × (any (owner_in actor.tenant_id) s2.memberships ≡ false)
  owners_lost actor actor' role role' s m m' same_tenant owner owner' differ found found' is is' two
        demoted demoted' =
      (
        change_allowed actor actor'.user_id role s m found owner (omega (arith, two)),
        change_allowed actor' actor.user_id role' s m' found' owner' (
            subst (λ n. 2 ≤ count (owner_in n) s.memberships) (sym same_tenant)
              (omega (arith, two))),
        none_of_count (owner_in t) s2.memberships (omega (arith, two, fewer, fewest)),
      )
    where
      t : ℕ
      t = actor.tenant_id

      s1 : Db
      s1 = (commit s (change_role db actor actor'.user_id role m s)).1

      s2 : Db
      s2 = (commit s1 (change_role db actor' actor.user_id role' m' s1)).1

      here : (membership_of t actor'.user_id m ≡ true) × In m s.memberships
      here = db.found _ s.memberships m found

      here' : (membership_of actor'.tenant_id actor.user_id m' ≡ true) × In m' s.memberships
      here' = db.found _ s.memberships m' found'

      still_there : In m' s1.memberships
      still_there =
          others_kept actor actor'.user_id role s m m' (any_of_In _ m s.memberships here.1 here.0)
            here'.1
            (ground (
              arith,
              here'.0,
              differ,
              nat_eq_iff m'.user_id actor.user_id,
              nat_eq_iff m'.user_id actor'.user_id,
            ))

      fewer : count (owner_in t) s1.memberships + 1 ≤ count (owner_in t) s.memberships
      fewer = owner_demoted actor actor'.user_id role s m here.1 here.0 is demoted

      fewest : count (owner_in t) s2.memberships + 1 ≤ count (owner_in t) s1.memberships
      fewest =
          subst (λ n. count (owner_in n) s2.memberships + 1 ≤ count (owner_in n) s1.memberships)
            same_tenant
            (owner_demoted actor' actor.user_id role' s1 m' still_there here'.0 is' demoted')
