-- ===== src/Auth/Sample.antt =====
-- One user with a session and a reset token, for examples.
use promptlens_v.Prelude.{none, [], ◌∷◌, true, false}
use promptlens_v.Schema.{Db, UserStatus, MembershipRole, AuthToken, AuthTokenPurpose}
use promptlens_v.Schema.Sample.{blank}
use promptlens_v.Actor.{AuthenticatedActor}
use promptlens_v.Auth.{AuthSetup}

abbrev pub setup : AuthSetup
setup = record {
  digest = λ t. t;
  argon_hash = λ p salt. p;
  argon_verify = λ hashed p. true;
  trim = λ t. t;
  to_lower_case = λ t. t;
  email_verification_required = false;
}

abbrev pub token : AuthToken
token = record {
  id = 70;
  user_id = 5;
  token_hash = "reset";
  purpose = AuthTokenPurpose.password_reset;
  expires_at = 5000;
  used_at = none;
}

abbrev pub home : Db
home = record blank {
  users =
      record {
        id = 5;
        email = "a@example.com";
        display_name = "A";
        password_hash = "old";
        status = UserStatus.active;
        is_instance_admin = false;
        email_verified_at = none;
      }
      ∷ [];
  memberships = record { tenant_id = 1; user_id = 5; role = MembershipRole.owner } ∷ [];
  sessions =
      record {
        id = 9;
        token_hash = "session";
        user_id = 5;
        tenant_id = 1;
        expires_at = 9000;
        revoked_at = none;
        ip_hash = none;
        user_agent = none;
      }
      ∷ [];
  auth_tokens = token ∷ [];
}

abbrev pub actor : AuthenticatedActor
actor = record {
  user_id = 5;
  tenant_id = 1;
  role = MembershipRole.owner;
  session_id = 9;
  is_instance_admin = false;
}
