-- ===== src/Auth/Sessions.antt =====
-- Which session tokens are accepted, and the end of a session.
use promptlens_v.Prelude.{
  ℕ, String, ◌≡◌, ◌≢◌, refl, ap, ◌∙◌, subst, ◌<◌, Bool, ◌&&◌, Option, none, some, arith, inl, inr,
  change, In, In-change, Bool-cases, Option-cases, nat_eq_iff, String_eq, ◌==◌, ℕ_eq, is_none,
}
use promptlens_v.Store.{Prisma, ok, commit, committed}
use promptlens_v.Schema.{Db, Session, User, UserStatus, Membership}
use promptlens_v.Actor.{AuthenticatedActor}
use promptlens_v.Auth.{AuthSetup, authenticate, authenticate_body, logout, ended}

-- What holds when a session token is accepted.
pub record SignedIn (setup : AuthSetup) (token : String) (now : ℕ) (s : Db)
    (who : AuthenticatedActor) : Type 0 where
  pub session : Session
  pub user : User
  pub membership : Membership
  pub held : In session s.sessions
  pub named : session.token_hash ≡ setup.digest token
  pub live : session.revoked_at ≡ none
  pub early : now < session.expires_at
  pub account : In user s.users
  pub owner : user.id ≡ session.user_id
  pub active : user.status ≡ UserStatus.active
  pub belongs : In membership s.memberships
  pub place : (membership.tenant_id ≡ session.tenant_id) × (membership.user_id ≡ session.user_id)
  pub who_is : who ≡ record {
    user_id = session.user_id;
    tenant_id = session.tenant_id;
    role = membership.role;
    session_id = session.id;
    is_instance_admin = user.is_instance_admin;
  }

module _ (db : Prisma) (setup : AuthSetup) where
  abbrev by_hash : (token : String) → Session → Bool
  by_hash token x = x.token_hash == setup.digest token

  abbrev place_of : Session → Membership → Bool
  place_of x m = m.tenant_id == x.tenant_id && m.user_id == x.user_id

  body_inv :
      (token : String) (now : ℕ) (s s' : Db) (who : AuthenticatedActor)
      → authenticate_body db setup token now s ≡ ok (who, s')
      → SignedIn setup token now s who
  unfolding authenticate_body
  body_inv token now s s' who h = elim (Option-cases (db.find_first (by_hash token) s.sessions)) [
    | inl e ↦ absurd (ground arith)
    | inr (x, e) ↦ elim (Option-cases (db.find_first (λ (u : User). u.id == x.user_id) s.users)) [
      | inl e1 ↦ absurd (ground arith)
      | inr (u, e1) ↦ elim (Option-cases (db.find_first (place_of x) s.memberships)) [
        | inl e2 ↦ absurd (ground arith)
        | inr (m, e2) ↦
            let (named, held) = db.found (by_hash token) s.sessions x e in
            let (owner, account) = db.found (λ (u : User). u.id == x.user_id) s.users u e1 in
            let (place, belongs) = db.found (place_of x) s.memberships m e2 in
            record {
              session = x;
              user = u;
              membership = m;
              held = held;
              named = (String_eq.same_iff _ _).0 named;
              live = ground arith;
              early = ground arith;
              account = account;
              owner = (nat_eq_iff _ _).0 owner;
              active = ground arith;
              belongs = belongs;
              place =
                  ground
                    (arith, nat_eq_iff m.tenant_id x.tenant_id, nat_eq_iff m.user_id x.user_id);
              who_is = ground arith;
            }
      ]
    ]
  ]

  -- An accepted token belongs to a session that is neither revoked nor expired, of an active user who
  -- is a member of the session's workspace; the actor has the role of that membership.
  pub authenticate-SignedIn :
      (token : Option String) (now : ℕ) (s : Db) (who : AuthenticatedActor)
      → (authenticate db setup token now s).0 ≡ ok who
      → (t : String) × (token ≡ some t) × SignedIn setup t now s who
  unfolding authenticate
  authenticate-SignedIn none now s who h = cc
  authenticate-SignedIn (some t) now s who h = elim (Bool-cases (t == "")) [
    | inl empty ↦ absurd (ground arith)
    | inr text ↦ (
      t,
      refl,
      body_inv t now s (commit s (authenticate_body db setup t now s)).1 who
          (committed s (authenticate_body db setup t now s) who (ground arith)),
    )
  ]

  -- A token that was logged out is refused from then on.
  pub logout_ends :
      (token : String) (now later : ℕ) (s : Db) (who : AuthenticatedActor)
      → (authenticate db setup (some token) later (logout db setup (some token) now s)).0 ≢ ok who
  unfolding logout
  logout_ends token now later s who h =
      let (t, same, x) =
        authenticate-SignedIn (some token) later (logout db setup (some token) now s) who h in
      elim (Bool-cases (token == "")) [
        | inl empty ↦ absurd (unfold authenticate in ground arith)
        | inr text ↦
            let e : (logout db setup (some token) now s).sessions
                ≡ change (open_by token) (ended now) s.sessions =
              ground (arith, db.update_many_lem (open_by token) (ended now) s.sessions) in
            let (y, _, ey) =
              In-change (open_by token) (ended now) x.session s.sessions
                (subst (In x.session) e x.held) in
            let named : x.session.token_hash ≡ setup.digest token =
              x.named ∙ ap setup.digest (ground arith) in
            absurd (
              ground (
                arith,
                x.live,
                named,
                ap (λ (z : Session). z.revoked_at) ey,
                ap (λ (z : Session). z.token_hash) ey,
                String_eq.same_iff y.token_hash (setup.digest token),
              ))
      ]
    where
      open_by : (token : String) → Session → Bool
      open_by token x = x.token_hash == setup.digest token && is_none x.revoked_at
