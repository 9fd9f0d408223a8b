-- ===== src/Admin/Tests.antt =====
-- Examples for the administration.
use promptlens_v.Prelude.{
  ◌≡◌, ◌≢◌, refl, inl, true, false, none, some, [], ◌∷◌, arith, any, In, IsKey-one,
}
use promptlens_v.Store.{ok, commit}
use promptlens_v.Store.Memory.{memory}
use promptlens_v.Schema.{
  Db, Membership, MembershipRole, Session, ConnectorCredential, ConnectorStatus,
}
use promptlens_v.Schema.Sample.{blank}
use promptlens_v.Actor.{AuthenticatedActor, AuthenticatedConnector}
use promptlens_v.Device.{Crypto, authenticate}
use promptlens_v.Admin.{
  owner_in, update_member, remove_member, remove_member_body, revoke_connector,
  revoke_connector_body, closed, member_to_change, change_role,
}
use promptlens_v.Admin.Owners.{update_member_keeps_owner}
use promptlens_v.Admin.Race.{owners_lost}
use promptlens_v.Admin.Connectors.{revoke_connector_locks_out}

abbrev owner : AuthenticatedActor
owner = record {
  user_id = 5;
  tenant_id = 1;
  role = MembershipRole.owner;
  session_id = 9;
  is_instance_admin = false;
}

abbrev session : Session
session = record {
  id = 10;
  token_hash = "h";
  user_id = 6;
  tenant_id = 1;
  expires_at = 5000;
  revoked_at = none;
  ip_hash = none;
  user_agent = none;
}

abbrev team : Db
team = record blank {
  memberships =
      record { tenant_id = 1; user_id = 5; role = MembershipRole.owner }
      ∷ record { tenant_id = 1; user_id = 6; role = MembershipRole.member }
      ∷ [];
  sessions = session ∷ [];
}

update_member_keeps_owner_example :
    any (owner_in 1) (update_member memory owner 5 MembershipRole.viewer team).1.memberships ≡ true
update_member_keeps_owner_example =
    update_member_keeps_owner memory owner 5 MembershipRole.viewer team (omega arith) refl

-- The two owners of a workspace make each other members at once.
abbrev colleague : AuthenticatedActor
colleague = record owner { user_id = 6; session_id = 10 }

abbrev first_owner : Membership
first_owner = record { tenant_id = 1; user_id = 5; role = MembershipRole.owner }

abbrev second_owner : Membership
second_owner = record { tenant_id = 1; user_id = 6; role = MembershipRole.owner }

abbrev partners : Db
partners = record blank { memberships = first_owner ∷ second_owner ∷ [] }

owners_lost_example :
    let s1 =
      (commit partners
        (change_role memory owner 6 MembershipRole.member second_owner partners)).1 in
    let s2 = (commit s1 (change_role memory colleague 5 MembershipRole.member first_owner s1)).1 in
    (member_to_change memory owner 6 MembershipRole.member partners ≡ ok (second_owner, partners))
    × (member_to_change memory colleague 5 MembershipRole.member partners
        ≡ ok (first_owner, partners))
    × (any (owner_in 1) s2.memberships ≡ false)
owners_lost_example =
    owners_lost memory owner colleague MembershipRole.member MembershipRole.member partners
      second_owner first_owner refl refl refl (λ e. cc) refl refl refl refl refl refl refl

removal_done : (remove_member memory owner 6 3000 team).0 ≡ ok tt
unfolding remove_member remove_member_body
removal_done = refl

session_closed : In (closed 3000 session) (remove_member memory owner 6 3000 team).1.sessions
unfolding remove_member remove_member_body
session_closed = inl refl

abbrev crypto : Crypto
crypto = record { digest = λ t. t; pkce_challenge = λ t. t; to_upper_case = λ t. t }

abbrev credential : ConnectorCredential
credential = record {
  id = 20;
  tenant_id = 1;
  installation_id = 30;
  access_token_hash = "access";
  refresh_token_hash = "refresh";
  family_id = 40;
  access_expires_at = 900000;
  refresh_expires_at = 9000000;
  used_at = none;
  revoked_at = none;
  replaced_by_id = none;
}

abbrev installed : Db
installed = record blank {
  installations =
      record {
        id = 30;
        tenant_id = 1;
        created_by_id = 5;
        platform = "codex";
        protocol_version = "1";
        display_name = "Laptop";
        default_project_id = 4;
        status = ConnectorStatus.active;
        revoked_at = none;
      }
      ∷ [];
  credentials = credential ∷ [];
}

abbrev connector : AuthenticatedConnector
connector = record {
  installation_id = 30;
  tenant_id = 1;
  user_id = 5;
  default_project_id = 4;
  platform = "codex";
}

revocation_done : (revoke_connector memory owner 30 3000 installed).0 ≡ ok tt
unfolding revoke_connector revoke_connector_body
revocation_done = refl

revoke_connector_locks_out_example :
    authenticate memory crypto
      (some "access")
      4000
      (revoke_connector memory owner 30 3000 installed).1
    ≢ ok connector
revoke_connector_locks_out_example =
    revoke_connector_locks_out memory crypto owner 30 3000 4000 "access" installed credential
      connector (IsKey-one (λ x. x.access_token_hash) credential) (inl refl) refl refl
      revocation_done
