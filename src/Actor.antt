-- ===== src/Actor.antt =====
-- Who calls a handler: apps/api/src/auth/auth.types.ts and
-- apps/api/src/connectors/connector-auth.types.ts.
use promptlens_v.Prelude.{ℕ, String, Bool}
use promptlens_v.Schema.{MembershipRole}

pub record AuthenticatedActor : Type 0 where
  pub user_id : ℕ
  pub tenant_id : ℕ
  pub role : MembershipRole
  pub session_id : ℕ
  pub is_instance_admin : Bool

pub record AuthenticatedConnector : Type 0 where
  pub installation_id : ℕ
  pub tenant_id : ℕ
  pub user_id : ℕ
  pub default_project_id : ℕ
  pub platform : String
