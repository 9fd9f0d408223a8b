-- ===== src/Device/Sample.antt =====
-- Rows and draws of the device flow, for examples.
use promptlens_v.Prelude.{none, some, [], ◌∷◌, false}
use promptlens_v.Schema.{
  Db, DeviceAuthorization, ConnectorCredential, ConnectorInstallation, Project, MembershipRole,
  DeviceAuthorizationStatus, ConnectorStatus, ProjectStatus,
}
use promptlens_v.Schema.Sample.{blank}
use promptlens_v.Actor.{AuthenticatedActor, AuthenticatedConnector}
use promptlens_v.Device.{Crypto, Draw, ConnectorTokenResponse}

abbrev pub plain : Crypto
plain = record { digest = λ s. s; pkce_challenge = λ s. s; to_upper_case = λ s. s }

abbrev pub admitted : DeviceAuthorization
admitted = record {
  id = 1;
  device_code_hash = "pld_1";
  user_code = "ABCDEFGH";
  platform = "codex";
  display_name = "Codex";
  protocol_version = "1.0";
  code_challenge = some "proof";
  status = DeviceAuthorizationStatus.approved;
  tenant_id = some 7;
  user_id = some 8;
  project_id = some 9;
  installation_id = some 5;
  expires_at = 600_000;
  last_polled_at = some 1_000;
}

abbrev pub waiting : Db
waiting = record blank { devices = admitted ∷ [] }

abbrev pub draw : Draw
draw = record {
  now = 6_000;
  access_token = "pla_1";
  refresh_token = "plr_1";
  new_id = 20;
  new_family = 30;
}

abbrev pub later : Draw
later = record {
  now = 20_000;
  access_token = "pla_2";
  refresh_token = "plr_2";
  new_id = 21;
  new_family = 31;
}

abbrev pub tokens : ConnectorTokenResponse
tokens = record {
  access_token = "pla_1";
  refresh_token = "plr_1";
  token_type = "Bearer";
  expires_in = 900;
  installation_id = 5;
  project_id = some 9;
}

abbrev pub credential : ConnectorCredential
credential = record {
  id = 20;
  tenant_id = 7;
  installation_id = 5;
  access_token_hash = "pla_1";
  refresh_token_hash = "plr_1";
  family_id = 30;
  access_expires_at = 906_000;
  refresh_expires_at = 2_592_006_000;
  used_at = none;
  revoked_at = none;
  replaced_by_id = none;
}

abbrev pub installation : ConnectorInstallation
installation = record {
  id = 5;
  tenant_id = 7;
  created_by_id = 8;
  platform = "codex";
  protocol_version = "1.0";
  display_name = "Codex";
  default_project_id = 9;
  status = ConnectorStatus.active;
  revoked_at = none;
}

abbrev pub connected : Db
connected = record blank { installations = installation ∷ []; credentials = credential ∷ [] }

abbrev pub reused : Db
reused = record connected { credentials = record credential { used_at = some 1_000 } ∷ [] }

abbrev pub who : AuthenticatedConnector
who = record {
  installation_id = 5;
  tenant_id = 7;
  user_id = 8;
  default_project_id = 9;
  platform = "codex";
}

abbrev pub owner : AuthenticatedActor
owner = record {
  user_id = 8;
  tenant_id = 7;
  role = MembershipRole.owner;
  session_id = 1;
  is_instance_admin = false;
}

abbrev pub project : Project
project = record {
  id = 9;
  tenant_id = 7;
  name = "General";
  description = none;
  status = ProjectStatus.active;
  archived_at = none;
}

abbrev pub requested : DeviceAuthorization
requested = record admitted {
  status = DeviceAuthorizationStatus.pending;
  tenant_id = none;
  user_id = none;
  project_id = none;
  installation_id = none;
}

abbrev pub asked : Db
asked = record blank { devices = requested ∷ []; projects = project ∷ [] }
