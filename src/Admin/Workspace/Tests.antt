-- ===== src/Admin/Workspace/Tests.antt =====
-- Examples for the status of a user.
use promptlens_v.Prelude.{◌≡◌, refl, inl, none, [], ◌∷◌, true, false, In}
use promptlens_v.Store.{ok}
use promptlens_v.Store.Memory.{memory}
use promptlens_v.Schema.{Db, UserStatus, Tenant, Session, MembershipRole}
use promptlens_v.Schema.Sample.{blank}
use promptlens_v.Actor.{AuthenticatedActor}
use promptlens_v.Admin.{closed}
use promptlens_v.Admin.Workspace.{update_user_status, update_status_body, close_sessions}

abbrev operator : AuthenticatedActor
operator = record {
  user_id = 1;
  tenant_id = 1;
  role = MembershipRole.owner;
  session_id = 9;
  is_instance_admin = true;
}

abbrev open_session : Session
open_session = record {
  id = 10;
  token_hash = "h";
  user_id = 6;
  tenant_id = 2;
  expires_at = 5000;
  revoked_at = none;
  ip_hash = none;
  user_agent = none;
}

abbrev workspace : Tenant
workspace = record {
  id = 2;
  name = "T";
  slug = "t";
  retention_days = 30;
  ai_provider = "fake";
  ai_model = "m";
  ai_monthly_token_budget = 1000;
  deletion_scheduled_at = none;
}

abbrev instance_db : Db
instance_db = record blank {
  users =
      record {
        id = 6;
        email = "c@example.com";
        display_name = "C";
        password_hash = "x";
        status = UserStatus.active;
        is_instance_admin = false;
        email_verified_at = none;
      }
      ∷ [];
  tenants = workspace ∷ [];
  sessions = open_session ∷ [];
}

suspended_now :
    (update_user_status memory operator 6 UserStatus.suspended 3000 instance_db).0 ≡ ok tt
unfolding update_user_status update_status_body close_sessions
suspended_now = refl

is_closed :
    In
      (closed 3000 open_session)
      (update_user_status memory operator 6 UserStatus.suspended 3000 instance_db).1.sessions
unfolding update_user_status update_status_body close_sessions
is_closed = inl refl
