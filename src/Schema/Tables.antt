-- ===== src/Schema/Tables.antt =====
-- The delegates of the client, one for each table: its rows inside the state.
use promptlens_v.Store.{Table}
use promptlens_v.Schema.{
  Db, User, Tenant, Membership, Session, AuthToken, Project, ConnectorInstallation,
  DeviceAuthorization, ConnectorCredential, Prompt, PromptVersion, Tag, PromptTag, Analysis,
  UsageRecord, AuditEvent, OutboxEvent, SupportGrant,
}

abbrev pub users : Table Db User
users = record { rows = λ s. s.users; with_rows = λ rows s. record s { users = rows } }

abbrev pub tenants : Table Db Tenant
tenants = record { rows = λ s. s.tenants; with_rows = λ rows s. record s { tenants = rows } }

abbrev pub memberships : Table Db Membership
memberships = record {
  rows = λ s. s.memberships;
  with_rows = λ rows s. record s { memberships = rows };
}

abbrev pub sessions : Table Db Session
sessions = record { rows = λ s. s.sessions; with_rows = λ rows s. record s { sessions = rows } }

abbrev pub auth_tokens : Table Db AuthToken
auth_tokens = record {
  rows = λ s. s.auth_tokens;
  with_rows = λ rows s. record s { auth_tokens = rows };
}

abbrev pub projects : Table Db Project
projects = record { rows = λ s. s.projects; with_rows = λ rows s. record s { projects = rows } }

abbrev pub installations : Table Db ConnectorInstallation
installations = record {
  rows = λ s. s.installations;
  with_rows = λ rows s. record s { installations = rows };
}

abbrev pub devices : Table Db DeviceAuthorization
devices = record { rows = λ s. s.devices; with_rows = λ rows s. record s { devices = rows } }

abbrev pub credentials : Table Db ConnectorCredential
credentials = record {
  rows = λ s. s.credentials;
  with_rows = λ rows s. record s { credentials = rows };
}

abbrev pub prompts : Table Db Prompt
prompts = record { rows = λ s. s.prompts; with_rows = λ rows s. record s { prompts = rows } }

abbrev pub prompt_versions : Table Db PromptVersion
prompt_versions = record {
  rows = λ s. s.prompt_versions;
  with_rows = λ rows s. record s { prompt_versions = rows };
}

abbrev pub tags : Table Db Tag
tags = record { rows = λ s. s.tags; with_rows = λ rows s. record s { tags = rows } }

abbrev pub prompt_tags : Table Db PromptTag
prompt_tags = record {
  rows = λ s. s.prompt_tags;
  with_rows = λ rows s. record s { prompt_tags = rows };
}

abbrev pub analyses : Table Db Analysis
analyses = record { rows = λ s. s.analyses; with_rows = λ rows s. record s { analyses = rows } }

abbrev pub usage : Table Db UsageRecord
usage = record { rows = λ s. s.usage; with_rows = λ rows s. record s { usage = rows } }

abbrev pub audit : Table Db AuditEvent
audit = record { rows = λ s. s.audit; with_rows = λ rows s. record s { audit = rows } }

abbrev pub outbox : Table Db OutboxEvent
outbox = record { rows = λ s. s.outbox; with_rows = λ rows s. record s { outbox = rows } }

abbrev pub support_grants : Table Db SupportGrant
support_grants = record {
  rows = λ s. s.support_grants;
  with_rows = λ rows s. record s { support_grants = rows };
}
