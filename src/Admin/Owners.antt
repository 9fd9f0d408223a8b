-- ===== src/Admin/Owners.antt =====
-- A workspace keeps an owner through `updateMember` and `removeMember`.
use promptlens_v.Prelude.{
  ℕ, ◌≡◌, refl, ap, ◌≤◌, ◌+◌, Bool, true, not, ◌&&◌, List, [], ◌∷◌, arith, inl, inr, any, count,
  change, keep, In, Bool-cases, Option-cases, ℕ_eq, if◌then◌else◌,
}
use promptlens_v.Store.{Prisma, Result-cases, ok, modify}
use promptlens_v.Store.Single.{single, count_of_In}
use promptlens_v.Schema.{Db, Membership, MembershipRole}
use promptlens_v.Schema.Enums.{is_owner}
use promptlens_v.Actor.{AuthenticatedActor}
use promptlens_v.Admin.{
  membership_of, owner_in, with_role, update_member_body, update_member, retain_owner,
  is_tenant_admin,
}

module _ {R : Type 0} (p q : R → Bool) where
  any-count : (rows : List R) → 1 ≤ count q rows → any q rows ≡ true
  any-count [] h = absurd (ground arith)
  any-count (x ∷ rows) h = ground (arith, any-count rows)

  -- A change takes the test from no more rows than it selects.
  count-change :
      (f : R → R) (rows : List R) → count q rows ≤ count q (change p f rows) + count p rows
  count-change f [] = omega arith
  count-change f (x ∷ rows) = ground (arith, count-change f rows)

  any-change :
      (f : R → R) (rows : List R)
      → ((x : R) → In x rows → q x ≡ true → q (if p x then f x else x) ≡ true)
      → any q rows ≡ true
      → any q (change p f rows) ≡ true
  any-change f [] h e = cc
  any-change f (x ∷ rows) h e = elim (Bool-cases (q x)) [
    | inl here ↦ rw (h x (inl refl) here) refl
    | inr not_here ↦ ground (arith, any-change f rows (λ y i. h y (inr i)))
  ]

  pub any-keep :
      (rows : List R)
      → ((x : R) → In x rows → q x ≡ true → p x ≡ true)
      → any q rows ≡ true
      → any q (keep p rows) ≡ true
  any-keep [] h e = cc
  any-keep (x ∷ rows) h e = elim (Bool-cases (q x)) [
    | inl here ↦ ground (arith, h x (inl refl) here)
    | inr not_here ↦ ground (arith, any-keep rows (λ y i. h y (inr i)))
  ]

module _ (db : Prisma) where
  owner_refused :
      (actor : AuthenticatedActor) (m : Membership) (role : MembershipRole) (s s' : Db)
      → is_owner m.role && not (is_owner role) ≡ true
      → retain_owner db actor m role s ≡ ok (tt, s')
      → 2 ≤ count (owner_in actor.tenant_id) s.memberships
  owner_refused actor m role s s' last h =
      ground (arith, db.row_count_lem (owner_in actor.tenant_id) s.memberships)

  update_member_inv :
      (actor : AuthenticatedActor) (user : ℕ) (role : MembershipRole) (s s' : Db)
      → update_member_body db actor user role s ≡ ok (tt, s')
      → (m : Membership) × In m s.memberships
        × (membership_of actor.tenant_id user m ≡ true)
        × (is_owner m.role && not (is_owner role) ≡ true
            → 2 ≤ count (owner_in actor.tenant_id) s.memberships)
        × (s'.memberships
            ≡ change (membership_of actor.tenant_id user) (with_role role) s.memberships)
  unfolding update_member_body
  update_member_inv actor user role s s' h =
      elim (Option-cases (db.find_first (membership_of actor.tenant_id user) s.memberships)) [
        | inl e ↦ absurd (ground arith)
        | inr (m, e) ↦
            let (fits, there) = db.found (membership_of actor.tenant_id user) s.memberships m e in
            (
              m,
              there,
              fits,
              λ last. elim (Result-cases (retain_owner db actor m role s)) [
                | inl ((tt, s1), e1) ↦ owner_refused actor m role s s1 last e1
                | inr (x, e1) ↦ absurd (ground arith)
              ],
              ground (arith, updates),
            )
      ]
    where
      updates :
          db.update (membership_of actor.tenant_id user) (with_role role) s.memberships
          ≡ modify (membership_of actor.tenant_id user) (with_role role) s.memberships
      updates = db.update_lem _ _ _

  owners_after_role :
      (actor : AuthenticatedActor) (user : ℕ) (role : MembershipRole) (s s' : Db)
      → count (membership_of actor.tenant_id user) s.memberships ≤ 1
      → any (owner_in actor.tenant_id) s.memberships ≡ true
      → update_member_body db actor user role s ≡ ok (tt, s')
      → any (owner_in actor.tenant_id) s'.memberships ≡ true
  owners_after_role actor user role s s' unique owned h =
      let (m, there, fits, enough, after) = update_member_inv actor user role s s' h in
      rw after (elim (Bool-cases (is_owner m.role && not (is_owner role))) [
        | inl last ↦
            any-count p q (change p (with_role role) s.memberships)
              (omega (arith, count-change p q (with_role role) s.memberships, enough last, unique))
        | inr safe ↦
            any-change p q (with_role role) s.memberships
              (λ x i is. elim (Bool-cases (p x)) [
                | inr other ↦ ground arith
                | inl same ↦
                    let one : x ≡ m =
                      single p x m s.memberships
                        (omega (arith, unique, count_of_In p m s.memberships there fits)) i there
                        same fits in
                    ground (arith, ap (λ (z : Membership). z.role) one)
              ])
              owned
      ])
    where
      p : Membership → Bool
      p = membership_of actor.tenant_id user

      q : Membership → Bool
      q = owner_in actor.tenant_id

  -- A role change, refused or not, leaves the actor's workspace with an owner if it has one and the
  -- member whose role is asked for has at most one membership there.
  pub update_member_keeps_owner :
      (actor : AuthenticatedActor) (user : ℕ) (role : MembershipRole) (s : Db)
      → count (membership_of actor.tenant_id user) s.memberships ≤ 1
      → any (owner_in actor.tenant_id) s.memberships ≡ true
      → any (owner_in actor.tenant_id) (update_member db actor user role s).1.memberships ≡ true
  unfolding update_member
  update_member_keeps_owner actor user role s unique owned =
      elim (Bool-cases (is_tenant_admin actor.role)) [
        | inr stranger ↦ rw (update_member, stranger) owned
        | inl trusted ↦
            rw (update_member, trusted, db.transaction_lem)
              (elim (Result-cases (update_member_body db actor user role s)) [
                | inr (e, h) ↦ rw h owned
                | inl ((tt, s'), h) ↦ rw h (owners_after_role actor user role s s' unique owned h)
              ])
      ]
