-- ===== src/Auth/Register.antt =====
-- apps/api/src/auth/auth.service.ts: `register` makes an account with a workspace of its own. The
-- advisory lock that orders the first registrations is left out, since transactions do not overlap
-- here.
pub mod Account
pub mod Mailed
mod Tests
use promptlens_v.Prelude.{
  ℕ, String, Bool, true, false, not, ◌&&◌, ◌||◌, Option, none, some, [], ◌+◌, ◌==◌, ℕ_eq, String_eq,
  if◌then◌else◌, is_none, ltb,
}
use promptlens_v.Store.{
  Prisma, Error, Tx, Result, ok, err, conflict, unique_violation, ◌>>=◌, ◌>>◌, pure, row_count,
  create,
}
use promptlens_v.Schema.{
  Db, User, Tenant, Membership, MembershipRole, Project, ProjectStatus, Session, AuthToken,
  AuthTokenPurpose, UserStatus, AuditEvent,
}
use promptlens_v.Schema.Tables.{users, tenants, memberships, projects, sessions, auth_tokens, audit}
use promptlens_v.Auth.{
  AuthSetup, AuthDraw, ClientMetadata, SessionResponse, Mail, normalize_email, session_for,
  token_for, session_clash, token_clash, no_clash, verify_ttl_ms,
}
use Prim.Native.String.{◌++◌ as concat}

pub record RegisterRequest : Type 0 where
  pub email : String
  pub password : String
  pub display_name : String
  pub tenant_name : String

-- What a registration draws: the session with its token, the verification token, and the ids.
pub record RegisterDraw : Type 0 where
  pub session : AuthDraw
  pub verification : AuthDraw
  pub suffix : String
  pub user_id : ℕ
  pub tenant_id : ℕ
  pub project_id : ℕ

abbrev pub user_clash : User → User → Bool
user_clash a b = a.id == b.id || a.email == b.email

abbrev pub tenant_clash : Tenant → Tenant → Bool
tenant_clash a b = a.id == b.id || a.slug == b.slug

abbrev pub everyone : User → Bool
everyone u = true

-- `slugify` is the chain of string replacements of `slugPrefix`; an empty result is replaced.
module _ (db : Prisma) (setup : AuthSetup) (slugify : String → String) where
  abbrev pub slug_prefix : String → String
  slug_prefix name =
      let normalized = slugify name in if normalized == "" then "workspace" else normalized

  pub new_user : RegisterRequest → RegisterDraw → (first_user : Bool) → User
  new_user input d first_user = record {
    id = d.user_id;
    email = normalize_email db setup input.email;
    display_name = input.display_name;
    password_hash = setup.argon_hash input.password d.session.salt;
    status = UserStatus.active;
    is_instance_admin = first_user;
    email_verified_at =
        if not setup.email_verification_required || first_user then some d.session.now else none;
  }

  -- The columns that are not given have the defaults of the schema.
  abbrev pub new_tenant : RegisterRequest → RegisterDraw → Tenant
  new_tenant input d = record {
    id = d.tenant_id;
    name = input.tenant_name;
    slug = concat (slug_prefix input.tenant_name) (concat "-" d.suffix);
    retention_days = 365;
    ai_provider = "fake";
    ai_model = "deterministic-v1";
    ai_monthly_token_budget = 1000000;
    deletion_scheduled_at = none;
  }

  abbrev pub new_membership : RegisterDraw → Membership
  new_membership d = record {
    tenant_id = d.tenant_id;
    user_id = d.user_id;
    role = MembershipRole.owner;
  }

  abbrev pub new_project : RegisterDraw → Project
  new_project d = record {
    id = d.project_id;
    tenant_id = d.tenant_id;
    name = "General";
    description = some "Default project";
    status = ProjectStatus.active;
    archived_at = none;
  }

  abbrev pub registered_event : RegisterDraw → AuditEvent
  registered_event d = record {
    tenant_id = some d.tenant_id;
    actor_id = some d.user_id;
    action = "auth.registered";
    target_type = "user";
    target_id = some d.user_id;
    result = "success";
    metadata = [];
  }

  abbrev pub first_token : RegisterDraw → AuthToken
  first_token d =
      token_for db setup d.user_id AuthTokenPurpose.email_verification verify_ttl_ms d.verification

  pub register_body : RegisterRequest → ClientMetadata → RegisterDraw → Tx Db User
  register_body input client d = do
    existing_users ← row_count db users everyone
    create db users user_clash (new_user input d (existing_users == 0))
    create db tenants tenant_clash (new_tenant input d)
    create db memberships no_clash (new_membership d)
    create db projects no_clash (new_project d)
    create db sessions session_clash (session_for db setup d.user_id d.tenant_id client d.session)
    create db audit no_clash (registered_event d)
    if setup.email_verification_required && ltb 0 existing_users
        then create db auth_tokens token_clash (first_token d)
        else pure tt
    pure (new_user input d (existing_users == 0))

  -- The mail after the transaction.
  abbrev pub verification_mail : User → RegisterDraw → Option Mail
  verification_mail user d =
      if setup.email_verification_required && is_none user.email_verified_at
      then some (user.email, d.verification.token)
      else none

  -- The answer, or the error that is thrown on.
  abbrev pub register_answer :
      RegisterRequest → RegisterDraw → Result User → Result (SessionResponse × Option Mail)
  register_answer input d (err unique_violation) =
      err (conflict "An account with this email already exists.")
  register_answer input d (err e) = err e
  register_answer input d (ok user) = ok (
    record {
      user_id = user.id;
      email = user.email;
      display_name = user.display_name;
      tenant_id = d.tenant_id;
      tenant_name = input.tenant_name;
      role = MembershipRole.owner;
    },
    verification_mail user d,
  )

  pub register :
      RegisterRequest
      → ClientMetadata
      → RegisterDraw
      → Db
      → Result (SessionResponse × Option Mail) × Db
  register input client d s =
      let r = db.transaction (register_body input client d) s in (register_answer input d r.0, r.1)
