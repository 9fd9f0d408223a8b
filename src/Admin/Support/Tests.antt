-- ===== src/Admin/Support/Tests.antt =====
-- Examples for support access.
use promptlens_v.Prelude.{refl, inl, ◌+◌, ◌*◌, true, false, none, [], ◌∷◌, In, IsKey-one}
use promptlens_v.Store.Memory.{memory}
use promptlens_v.Schema.{Db, MembershipRole, SupportGrant, UserStatus}
use promptlens_v.Schema.Sample.{blank}
use promptlens_v.Actor.{AuthenticatedActor}
use promptlens_v.Admin.{approved_by}
use promptlens_v.Admin.Support.{approve_support, approve_support_body}
use promptlens_v.Admin.Support.Access.{approve, Opened, SupportStep-Opened}

abbrev owner : AuthenticatedActor
owner = record {
  user_id = 5;
  tenant_id = 1;
  role = MembershipRole.owner;
  session_id = 9;
  is_instance_admin = false;
}

abbrev grant : SupportGrant
grant = record {
  id = 50;
  tenant_id = 1;
  requested_by_id = 8;
  approved_by_id = none;
  reason = "ticket";
  expires_at = none;
  revoked_at = none;
}

abbrev asked : Db
asked = record blank {
  users =
      record {
        id = 8;
        email = "ops@example.com";
        display_name = "Ops";
        password_hash = "x";
        status = UserStatus.active;
        is_instance_admin = true;
        email_verified_at = none;
      }
      ∷ [];
  support_grants = grant ∷ [];
}

abbrev opened : SupportGrant
opened = approved_by 5 (1000 + 60 * 60 * 1000) grant

is_opened : In opened (approve_support memory owner 50 1000 asked).1.support_grants
unfolding approve_support approve_support_body
is_opened = inl refl

SupportStep-Opened_example :
    Opened memory 1 opened asked (approve_support memory owner 50 1000 asked).1
SupportStep-Opened_example =
    SupportStep-Opened memory asked (approve_support memory owner 50 1000 asked).1 opened 1 8 2000
      (approve owner 50 1000 asked) (IsKey-one (λ x. x.id) grant) is_opened refl
