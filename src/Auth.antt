-- ===== src/Auth.antt =====
-- apps/api/src/auth/auth.service.ts: accounts, sessions and the tokens that verify an email or reset
-- a password. The time, the random tokens and the ids of new rows are arguments. The hashes, the
-- string functions of the language and the configuration are parameters. A mail is returned to the
-- caller, who sends it.
pub mod Sessions
pub mod Tokens
pub mod Register
pub mod MailService
pub mod Sample
mod Tests
use promptlens_v.Prelude.{
  ℕ, String, Bool, true, false, not, ◌&&◌, ◌||◌, Option, none, some, [], ◌∷◌, ◌++◌, ◌+◌, ◌*◌, ◌==◌,
  ℕ_eq, String_eq, ltb, leb, if◌then◌else◌, is_none, is_some,
}
use promptlens_v.Store.{
  Prisma, Error, Tx, Result, ok, err, bad_request, unauthorized, forbidden, not_found, conflict,
  record_missing, unique_violation, ◌>>=◌, ◌>>◌, pure, throw, ensure, require, find_first,
  update_many, update, create, row_count, commit,
}
use promptlens_v.Schema.{
  Db, User, Tenant, Membership, MembershipRole, Session, AuthToken, AuthTokenPurpose, Project,
  ProjectStatus, UserStatus, AuditEvent, flag,
}
use promptlens_v.Schema.Tables.{users, tenants, memberships, sessions, auth_tokens, projects, audit}
use promptlens_v.Schema.Enums.{is_active_user, is_email_verification, is_password_reset}
use promptlens_v.Actor.{AuthenticatedActor}

abbrev pub session_ttl_ms : ℕ
session_ttl_ms = 30 * 24 * 60 * 60 * 1000

abbrev pub verify_ttl_ms : ℕ
verify_ttl_ms = 24 * 60 * 60 * 1000

abbrev pub reset_ttl_ms : ℕ
reset_ttl_ms = 60 * 60 * 1000

pub record AuthSetup : Type 0 where
  pub digest : String → String
  pub argon_hash : (password salt : String) → String
  pub argon_verify : (hashed password : String) → Bool
  pub trim : String → String
  pub to_lower_case : String → String
  pub email_verification_required : Bool

-- What one call draws.
pub record AuthDraw : Type 0 where
  pub now : ℕ
  pub token : String
  pub salt : String
  pub new_id : ℕ

-- The metadata of a request, hashed and cut as the code does.
pub record ClientMetadata : Type 0 where
  pub ip_hash : Option String
  pub user_agent : Option String

pub record SessionResponse : Type 0 where
  pub user_id : ℕ
  pub email : String
  pub display_name : String
  pub tenant_id : ℕ
  pub tenant_name : String
  pub role : MembershipRole

-- A mail to send: the address and the token that it carries.
abbrev pub Mail : Type 0
Mail = String × String

abbrev pub no_clash {ℓ} : {A : Type ℓ} → A → A → Bool
no_clash a b = false

abbrev pub session_clash : Session → Session → Bool
session_clash a b = a.id == b.id || a.token_hash == b.token_hash

abbrev pub token_clash : AuthToken → AuthToken → Bool
token_clash a b = a.id == b.id || a.token_hash == b.token_hash

abbrev pub open_user_session : (user_id : ℕ) → Session → Bool
open_user_session user_id x = x.user_id == user_id && is_none x.revoked_at

abbrev pub ended : (at : ℕ) → Session → Session
ended at x = record x { revoked_at = some at }

abbrev pub spent : (at : ℕ) → AuthToken → AuthToken
spent at t = record t { used_at = some at }

abbrev pub usable_token : (id now : ℕ) → AuthToken → Bool
usable_token id now t = t.id == id && (is_none t.used_at && ltb now t.expires_at)

abbrev pub unspent : (user_id : ℕ) (is_purpose : AuthTokenPurpose → Bool) → AuthToken → Bool
unspent user_id is_purpose t = t.user_id == user_id && (is_purpose t.purpose && is_none t.used_at)

module _ (db : Prisma) (setup : AuthSetup) where
  pub normalize_email : String → String
  normalize_email email = setup.to_lower_case (setup.trim email)

  abbrev pub session_for : (user_id tenant_id : ℕ) → ClientMetadata → AuthDraw → Session
  session_for user_id tenant_id client d = record {
    id = d.new_id;
    token_hash = setup.digest d.token;
    user_id = user_id;
    tenant_id = tenant_id;
    expires_at = d.now + session_ttl_ms;
    revoked_at = none;
    ip_hash = client.ip_hash;
    user_agent = client.user_agent;
  }

  abbrev pub token_for : (user_id : ℕ) → AuthTokenPurpose → (ttl : ℕ) → AuthDraw → AuthToken
  token_for user_id purpose ttl d = record {
    id = d.new_id;
    user_id = user_id;
    token_hash = setup.digest d.token;
    purpose = purpose;
    expires_at = d.now + ttl;
    used_at = none;
  }

  abbrev respond : User → Tenant → MembershipRole → SessionResponse
  respond user tenant role = record {
    user_id = user.id;
    email = user.email;
    display_name = user.display_name;
    tenant_id = tenant.id;
    tenant_name = tenant.name;
    role = role;
  }

  abbrev may_enter : (password : String) → Option User → Bool
  may_enter password none = false
  may_enter password (some user) =
      is_active_user user.status && setup.argon_verify user.password_hash password

  abbrev is_verified : User → Bool
  is_verified user = not (setup.email_verification_required && is_none user.email_verified_at)

  -- `membership.findFirst` with the tenant, then `session.create`. The code asks for the oldest
  -- membership; here the client chooses any.
  pub login_body : (email password : String) → ClientMetadata → AuthDraw → Tx Db SessionResponse
  login_body email password client d = do
    row ← find_first db users (λ u. u.email == normalize_email email)
    ensure (may_enter password row) (unauthorized "Invalid email or password.")
    user ← require row (unauthorized "Invalid email or password.")
    ensure (is_verified user) (forbidden "Email verification is required.")
    found ← find_first db memberships (λ m. m.user_id == user.id)
    m ← require found (unauthorized "No active workspace membership.")
    home ← find_first db tenants (λ t. t.id == m.tenant_id)
    tenant ← require home record_missing
    create db sessions session_clash (session_for user.id m.tenant_id client d)
    pure (respond user tenant m.role)

  -- The statements of `login` stand in no common transaction; only the last one writes.
  pub login :
      (email password : String) → ClientMetadata → AuthDraw → Db → Result SessionResponse × Db
  login email password client d s = commit s (login_body email password client d s)

  abbrev live_session : Session → User → (now : ℕ) → Bool
  live_session x user now =
      is_active_user user.status && (is_none x.revoked_at && ltb now x.expires_at)

  -- `session.findUnique` with its user, and the membership.
  pub authenticate_body : (token : String) (now : ℕ) → Tx Db AuthenticatedActor
  authenticate_body token now = do
    row ← find_first db sessions (λ x. x.token_hash == setup.digest token)
    x ← require row (unauthorized "Session is invalid or expired.")
    owner ← find_first db users (λ u. u.id == x.user_id)
    user ← require owner record_missing
    ensure (live_session x user now) (unauthorized "Session is invalid or expired.")
    found ← find_first db memberships (λ m. m.tenant_id == x.tenant_id && m.user_id == x.user_id)
    m ← require found (unauthorized "Workspace access was removed.")
    pure (record {
      user_id = x.user_id;
      tenant_id = x.tenant_id;
      role = m.role;
      session_id = x.id;
      is_instance_admin = user.is_instance_admin;
    })

  -- `if (!token)`: an absent or empty token.
  abbrev pub given : Option String → Option String
  given none = none
  given (some t) = if t == "" then none else some t

  pub authenticate : (token : Option String) (now : ℕ) → Db → Result AuthenticatedActor × Db
  authenticate token now s = elim (given token) [
    | none ↦ (err (unauthorized "Authentication required."), s)
    | some t ↦ commit s (authenticate_body t now s)
  ]

  pub logout : (token : Option String) (now : ℕ) → Db → Db
  logout token now s = elim (given token) [
    | none ↦ s
    | some t ↦ record s {
      sessions =
          (db.update_many (λ x. x.token_hash == setup.digest t && is_none x.revoked_at) (ended now)
            s.sessions).0;
    }
  ]

  abbrev pub own_session : AuthenticatedActor → (session_id : ℕ) → Session → Bool
  own_session actor session_id x =
      x.id == session_id
      && (x.user_id == actor.user_id && (x.tenant_id == actor.tenant_id && is_none x.revoked_at))

  pub revoke_session_body : AuthenticatedActor → (session_id now : ℕ) → Tx Db (Unit {0})
  revoke_session_body actor session_id now = do
    revoked ← update_many db sessions (own_session actor session_id) (ended now)
    ensure (revoked == 1) (not_found "Session not found.")
    create db audit no_clash (record {
      tenant_id = some actor.tenant_id;
      actor_id = some actor.user_id;
      action = "session.revoked";
      target_type = "session";
      target_id = some session_id;
      result = "success";
      metadata = ("current", flag (session_id == actor.session_id)) ∷ [];
    })

  pub revoke_session : AuthenticatedActor → (session_id now : ℕ) → Db → Result (Unit {0}) × Db
  revoke_session actor session_id now = db.transaction (revoke_session_body actor session_id now)

  pub switch_tenant_body : AuthenticatedActor → (tenant_id : ℕ) → AuthDraw → Tx Db SessionResponse
  switch_tenant_body actor tenant_id d = do
    found ← find_first db memberships (λ m. m.tenant_id == tenant_id && m.user_id == actor.user_id)
    m ← require found (forbidden "Workspace access is required.")
    home ← find_first db tenants (λ t. t.id == tenant_id)
    tenant ← require home record_missing
    self ← find_first db users (λ u. u.id == actor.user_id)
    user ← require self record_missing
    old ← find_first db sessions (λ x. x.id == actor.session_id)
    x ← require old record_missing
    update db sessions (λ y. y.id == actor.session_id) (ended d.now)
    create db sessions session_clash (
        session_for actor.user_id tenant_id
          (record { ip_hash = x.ip_hash; user_agent = x.user_agent }) d)
    pure (respond user tenant m.role)

  pub switch_tenant :
      (token : Option String) (tenant_id : ℕ) → AuthDraw → Db → Result SessionResponse × Db
  switch_tenant token tenant_id d s = elim (authenticate token d.now s).0 [
    | err e ↦ (err e, s)
    | ok actor ↦ db.transaction (switch_tenant_body actor tenant_id d) s
  ]
