-- ===== src/Admin/Removal.antt =====
-- `removeMember`: the workspace keeps an owner, and the removed member has no session left in it.
use promptlens_v.Prelude.{
  ℕ, ◌≡◌, ◌≢◌, ap, subst, ◌≤◌, Bool, true, false, not, ◌&&◌, List, [], ◌∷◌, arith, inl, inr, any,
  count, change, keep, In, In-change, Bool-cases, Option-cases, nat_eq_iff, ◌==◌, ℕ_eq, is_none,
}
use promptlens_v.Store.{Prisma, Result-cases, ok, committed, remove}
use promptlens_v.Store.Single.{single, count_of_In}
use promptlens_v.Schema.{Db, Membership, Session}
use promptlens_v.Schema.Enums.{is_owner}
use promptlens_v.Actor.{AuthenticatedActor}
use promptlens_v.Admin.{
  membership_of, owner_in, remove_member_body, remove_member, closed, open_session, is_tenant_admin,
}
use promptlens_v.Admin.Owners.{any-keep}

-- What a removal that succeeds found, and what it did.
pub record Removal (actor : AuthenticatedActor) (user now : ℕ) (s s' : Db) : Type 0 where
  pub membership : Membership
  pub there : In membership s.memberships
  pub fits : membership_of actor.tenant_id user membership ≡ true
  pub allowed : is_owner membership.role ≡ true → is_owner actor.role ≡ true
  pub memberships :
      s'.memberships ≡ keep (λ m. not (membership_of actor.tenant_id user m)) s.memberships
  pub sessions : s'.sessions ≡ change (open_session actor.tenant_id user) (closed now) s.sessions

module _ (db : Prisma) where
  remove_member_inv :
      (actor : AuthenticatedActor) (user now : ℕ) (s s' : Db)
      → remove_member_body db actor user now s ≡ ok (tt, s')
      → Removal actor user now s s'
  unfolding remove_member_body
  remove_member_inv actor user now s s' h =
      elim (Option-cases (db.find_first (membership_of actor.tenant_id user) s.memberships)) [
        | inl e ↦ absurd (ground arith)
        | inr (m, e) ↦
            let (fits, there) = db.found (membership_of actor.tenant_id user) s.memberships m e in
            record {
              membership = m;
              there = there;
              fits = fits;
              allowed = λ is. ground arith;
              memberships = ground (arith, deletes);
              sessions = ground (arith, deletes, updates);
            }
      ]
    where
      deletes :
          db.delete (membership_of actor.tenant_id user) s.memberships
          ≡ remove (membership_of actor.tenant_id user) s.memberships
      deletes = db.delete_lem _ _

      updates : db.update_many (open_session actor.tenant_id user) (closed now) s.sessions ≡ (
        change (open_session actor.tenant_id user) (closed now) s.sessions,
        count (open_session actor.tenant_id user) s.sessions,
      )
      updates = db.update_many_lem _ _ _

  any_weaker :
      {R : Type 0} (p q : R → Bool) (rows : List R)
      → ((x : R) → p x ≡ true → q x ≡ true)
      → any p rows ≡ true
      → any q rows ≡ true
  any_weaker p q [] imp h = cc
  any_weaker p q (x ∷ rows) imp h = ground (arith, imp x, any_weaker p q rows imp)

  owners_after-Removal :
      (actor : AuthenticatedActor) (user now : ℕ) (s s' : Db)
      → user ≢ actor.user_id
      → count (membership_of actor.tenant_id user) s.memberships ≤ 1
      → any (owner_in actor.tenant_id) s.memberships ≡ true
      → (is_owner actor.role ≡ true
          → any
              (λ m. membership_of actor.tenant_id actor.user_id m && is_owner m.role)
              s.memberships
            ≡ true)
      → Removal actor user now s s'
      → any (owner_in actor.tenant_id) s'.memberships ≡ true
  owners_after-Removal actor user now s s' other unique owned own r =
      rw r.memberships (elim (Bool-cases (is_owner r.membership.role)) [
        | inl owner ↦
            any_weaker own_row q _ (λ x h. ground arith)
              (any-keep kept own_row s.memberships
                (λ x i h.
                  ground (arith, nat_eq_iff x.user_id user, nat_eq_iff x.user_id actor.user_id))
                (own (r.allowed owner)))
        | inr plain ↦
            any-keep kept q s.memberships
              (λ x i h. elim (Bool-cases (p x)) [
                | inr stays ↦ ground arith
                | inl goes ↦
                    let one : x ≡ r.membership =
                      single p x r.membership s.memberships
                        (omega
                          (arith, unique, count_of_In p r.membership s.memberships r.there r.fits))
                        i r.there goes r.fits in
                    absurd (ground (arith, ap (λ (z : Membership). z.role) one))
              ])
              owned
      ])
    where
      p : Membership → Bool
      p = membership_of actor.tenant_id user

      q : Membership → Bool
      q = owner_in actor.tenant_id

      kept : Membership → Bool
      kept m = not (p m)

      own_row : Membership → Bool
      own_row m = membership_of actor.tenant_id actor.user_id m && is_owner m.role

  removed :
      (actor : AuthenticatedActor) (user now : ℕ) (s : Db)
      → (remove_member db actor user now s).0 ≡ ok tt
      → Removal actor user now s (remove_member db actor user now s).1
  unfolding remove_member
  removed actor user now s h = elim (Bool-cases (is_tenant_admin actor.role)) [
    | inr stranger ↦ absurd (ground arith)
    | inl trusted ↦ elim (Bool-cases (user == actor.user_id)) [
      | inl self ↦ absurd (ground arith)
      | inr other ↦
          rw (remove_member, trusted, other, db.transaction_lem)
            (remove_member_inv actor user now s _ (
              committed s (remove_member_body db actor user now s) tt
                (rw (remove_member, trusted, other, db.transaction_lem) at h)))
    ]
  ]

  -- A removal leaves a workspace that has an owner with one, where a member has one membership and
  -- an actor with the role of an owner has a membership with that role.
  pub remove_member_keeps_owner :
      (actor : AuthenticatedActor) (user now : ℕ) (s : Db)
      → count (membership_of actor.tenant_id user) s.memberships ≤ 1
      → any (owner_in actor.tenant_id) s.memberships ≡ true
      → (is_owner actor.role ≡ true
          → any
              (λ m. membership_of actor.tenant_id actor.user_id m && is_owner m.role)
              s.memberships
            ≡ true)
      → any (owner_in actor.tenant_id) (remove_member db actor user now s).1.memberships ≡ true
  unfolding remove_member
  remove_member_keeps_owner actor user now s unique owned own =
      elim (Bool-cases (is_tenant_admin actor.role)) [
        | inr stranger ↦ rw (remove_member, stranger) owned
        | inl trusted ↦ elim (Bool-cases (user == actor.user_id)) [
          | inl self ↦ rw (remove_member, trusted, self) owned
          | inr other ↦
              rw (remove_member, trusted, other, db.transaction_lem)
                (elim (Result-cases (remove_member_body db actor user now s)) [
                  | inr (e, h) ↦ rw h owned
                  | inl ((tt, s'), h) ↦ rw h (
                      owners_after-Removal actor user now s s'
                        (λ e. ground (arith, nat_eq_iff user actor.user_id)) unique owned own
                        (remove_member_inv actor user now s s' h))
                ])
        ]
      ]

  -- A member that was removed has no session left in the workspace: every session of the user there
  -- is revoked.
  pub remove_member_closes :
      (actor : AuthenticatedActor) (user now : ℕ) (s : Db) (x : Session)
      → (remove_member db actor user now s).0 ≡ ok tt
      → In x (remove_member db actor user now s).1.sessions
      → x.tenant_id ≡ actor.tenant_id
      → x.user_id ≡ user
      → is_none x.revoked_at ≡ false
  remove_member_closes actor user now s x h i t u =
      let r = removed actor user now s h in
      let (y, _, e) =
        In-change (open_session actor.tenant_id user) (closed now) x s.sessions
          (subst (In x) r.sessions i) in
      ground (
        arith,
        nat_eq_iff y.tenant_id actor.tenant_id,
        nat_eq_iff y.user_id user,
        ap (λ (z : Session). z.tenant_id) e,
        ap (λ (z : Session). z.user_id) e,
        ap (λ (z : Session). z.revoked_at) e,
      )
