-- ===== src/Admin/Workspace/Suspension.antt =====
-- `updateUserStatus`: a user who is not active any more has no open session.
use promptlens_v.Prelude.{
  ℕ, ◌≡◌, refl, sym, ap, ◌∙◌, subst, true, false, List, [], ◌∷◌, arith, inl, inr, In, In-change,
  nat_eq_iff, ◌==◌, ℕ_eq, if◌then◌else◌, is_none,
}
use promptlens_v.Store.{Prisma, ok, committed}
use promptlens_v.Schema.{Db, User, UserStatus, Tenant, Session}
use promptlens_v.Schema.Enums.{is_active_user}
use promptlens_v.Actor.{AuthenticatedActor}
use promptlens_v.Admin.{open_session, closed}
use promptlens_v.Admin.Workspace.{
  close_sessions, update_status_body, update_user_status, with_status,
}

-- A session of a changed list is one of the list before, closed or not.
closed_from :
    (t u now : ℕ) (x y : Session)
    → (if open_session t u x then closed now x else x) ≡ y
    → (x.tenant_id ≡ y.tenant_id)
      × (x.user_id ≡ y.user_id)
      × (is_none x.revoked_at ≡ false → is_none y.revoked_at ≡ false)
      × (y.tenant_id ≡ t → y.user_id ≡ u → is_none y.revoked_at ≡ false)
closed_from t u now x y e = (
  ground arith,
  ground arith,
  λ h. ground arith,
  λ ht hu. ground (arith, nat_eq_iff x.tenant_id t, nat_eq_iff x.user_id u),
)

module _ (db : Prisma) where
  -- A session of the result comes from one of the rows; it is revoked if that one was, or if its
  -- workspace is in the list and its user is the one in question.
  sessions_closed :
      (u now : ℕ) (ts : List Tenant) (rows : List Session) (y : Session)
      → In y (close_sessions db u now ts rows)
      → y.user_id ≡ u
      → ((x : Session) × In x rows
          × (x.tenant_id ≡ y.tenant_id)
          × (x.user_id ≡ y.user_id)
          × (is_none x.revoked_at ≡ false → is_none y.revoked_at ≡ false))
        × ((t : Tenant) → In t ts → t.id ≡ y.tenant_id → is_none y.revoked_at ≡ false)
  unfolding close_sessions
  sessions_closed u now [] rows y i h = ((y, i, refl, refl, λ r. r), λ t j e. absurd j)
  sessions_closed u now (t ∷ ts) rows y i h =
      let ((x, j, ex, eu, keeps), rest) =
        sessions_closed u now ts (db.update_many (open_session t.id u) (closed now) rows).0 y i h in
      let (z, k, e) = In-change (open_session t.id u) (closed now) x rows (
        subst (In x) (ap (λ r. r.0) (db.update_many_lem (open_session t.id u) (closed now) rows))
          j) in
      let (a, b, c, d) = closed_from t.id u now z x e in
      (
        (z, k, a ∙ ex, b ∙ eu, λ r. keeps (c r)),
        λ t' i' e'. elim i' [
          | inl same ↦ keeps (d (ex ∙ sym e' ∙ sym (ap (λ (q : Tenant). q.id) same)) (eu ∙ h))
          | inr later ↦ rest t' later e'
        ],
      )

  status_inv :
      (actor : AuthenticatedActor) (u : ℕ) (status : UserStatus) (now : ℕ) (s s' : Db)
      → update_status_body db actor u status now s ≡ ok (tt, s')
      → is_active_user status ≡ false
      → s'.sessions ≡ close_sessions db u now (db.find_many (λ t. true) s.tenants) s.sessions
  unfolding update_status_body
  status_inv actor u status now s s' h inactive =
      ground (arith, db.update_lem (λ (x : User). x.id == u) (with_status status) s.users)

  -- A user who was suspended or deleted has no open session in any workspace that exists.
  pub suspension_closes :
      (actor : AuthenticatedActor) (u : ℕ) (status : UserStatus) (now : ℕ) (s : Db) (t : Tenant)
      (y : Session)
      → (update_user_status db actor u status now s).0 ≡ ok tt
      → is_active_user status ≡ false
      → In y (update_user_status db actor u status now s).1.sessions
      → y.user_id ≡ u
      → In t s.tenants
      → t.id ≡ y.tenant_id
      → is_none y.revoked_at ≡ false
  unfolding update_user_status
  suspension_closes actor u status now s t y h inactive i who there home =
      let e =
        status_inv actor u status now s (update_user_status db actor u status now s).1
          (committed s (update_status_body db actor u status now s) tt h) inactive in
      (sessions_closed u now (db.find_many (λ t. true) s.tenants) s.sessions y (subst (In y) e i)
          who).1
        t ((db.find_many_lem (λ t. true) s.tenants t).1 (refl, there)) home
