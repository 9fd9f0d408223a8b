-- ===== src/Schema.antt =====
-- The tables of packages/database/prisma/schema.prisma that the services read and write. A uuid
-- is a number that is only compared, 0 the all-zero uuid of the system user; a timestamp is a
-- number of milliseconds since the epoch. Columns that no modelled handler reads or sets (updatedAt,
-- the createdAt of most tables, the ids of audit events) are left out.
pub mod Tables
pub mod Enums
pub mod Sample
use promptlens_v.Prelude.{ℕ, String, Bool, Option, List}

pub data MembershipRole : Type 0 where
  owner admin member viewer : MembershipRole

pub data UserStatus : Type 0 where
  active suspended deleted : UserStatus

pub data ProjectStatus : Type 0 where
  active archived : ProjectStatus

pub data ConnectorStatus : Type 0 where
  pending active revoked : ConnectorStatus

pub data DeviceAuthorizationStatus : Type 0 where
  pending approved denied consumed expired : DeviceAuthorizationStatus

pub data AnalysisStatus : Type 0 where
  queued running completed failed : AnalysisStatus

pub data PromptVersionKind : Type 0 where
  original improved user_edit : PromptVersionKind

pub data AuthTokenPurpose : Type 0 where
  email_verification password_reset : AuthTokenPurpose

pub record User : Type 0 where
  pub id : ℕ
  pub email : String
  pub display_name : String
  pub password_hash : String
  pub status : UserStatus
  pub is_instance_admin : Bool
  pub email_verified_at : Option ℕ

pub record Tenant : Type 0 where
  pub id : ℕ
  pub name : String
  pub slug : String
  pub retention_days : ℕ
  pub ai_provider : String
  pub ai_model : String
  pub ai_monthly_token_budget : ℕ
  pub deletion_scheduled_at : Option ℕ

pub record Membership : Type 0 where
  pub tenant_id : ℕ
  pub user_id : ℕ
  pub role : MembershipRole

pub record Session : Type 0 where
  pub id : ℕ
  pub token_hash : String
  pub user_id : ℕ
  pub tenant_id : ℕ
  pub expires_at : ℕ
  pub revoked_at : Option ℕ
  pub ip_hash : Option String
  pub user_agent : Option String

pub record AuthToken : Type 0 where
  pub id : ℕ
  pub user_id : ℕ
  pub token_hash : String
  pub purpose : AuthTokenPurpose
  pub expires_at : ℕ
  pub used_at : Option ℕ

pub record Project : Type 0 where
  pub id : ℕ
  pub tenant_id : ℕ
  pub name : String
  pub description : Option String
  pub status : ProjectStatus
  pub archived_at : Option ℕ

pub record ConnectorInstallation : Type 0 where
  pub id : ℕ
  pub tenant_id : ℕ
  pub created_by_id : ℕ
  pub platform : String
  pub protocol_version : String
  pub display_name : String
  pub default_project_id : ℕ
  pub status : ConnectorStatus
  pub revoked_at : Option ℕ

pub record DeviceAuthorization : Type 0 where
  pub id : ℕ
  pub device_code_hash : String
  pub user_code : String
  pub platform : String
  pub display_name : String
  pub protocol_version : String
  pub code_challenge : Option String
  pub status : DeviceAuthorizationStatus
  pub tenant_id : Option ℕ
  pub user_id : Option ℕ
  pub project_id : Option ℕ
  pub installation_id : Option ℕ
  pub expires_at : ℕ
  pub last_polled_at : Option ℕ

pub record ConnectorCredential : Type 0 where
  pub id : ℕ
  pub tenant_id : ℕ
  pub installation_id : ℕ
  pub access_token_hash : String
  pub refresh_token_hash : String
  pub family_id : ℕ
  pub access_expires_at : ℕ
  pub refresh_expires_at : ℕ
  pub used_at : Option ℕ
  pub revoked_at : Option ℕ
  pub replaced_by_id : Option ℕ

pub record Prompt : Type 0 where
  pub id : ℕ
  pub tenant_id : ℕ
  pub project_id : ℕ
  pub user_id : ℕ
  pub connector_installation_id : Option ℕ
  pub client_event_id : Option ℕ
  pub client_event_hash : Option String
  pub content : String
  pub platform : String
  pub model : String
  pub occurred_at : ℕ
  pub timezone : String
  pub metadata : String
  pub deleted_at : Option ℕ
  pub created_at : ℕ

pub record PromptVersion : Type 0 where
  pub tenant_id : ℕ
  pub prompt_id : ℕ
  pub analysis_id : Option ℕ
  pub kind : PromptVersionKind
  pub content : String
  pub created_at : ℕ

pub record Tag : Type 0 where
  pub id : ℕ
  pub tenant_id : ℕ
  pub name : String

pub record PromptTag : Type 0 where
  pub tenant_id : ℕ
  pub prompt_id : ℕ
  pub tag_id : ℕ

pub record Analysis : Type 0 where
  pub id : ℕ
  pub tenant_id : ℕ
  pub prompt_id : ℕ
  pub status : AnalysisStatus
  pub rubric_version : String
  pub provider : Option String
  pub model : Option String
  pub score : Option ℕ
  pub strengths : List String
  pub weaknesses : List String
  pub suggestions : List String
  pub error_code : Option String
  pub started_at : Option ℕ
  pub completed_at : Option ℕ
  pub created_at : ℕ

pub record UsageRecord : Type 0 where
  pub tenant_id : ℕ
  pub analysis_id : Option ℕ
  pub provider : String
  pub model : String
  pub input_tokens : ℕ
  pub output_tokens : ℕ
  pub latency_ms : ℕ
  pub created_at : ℕ

-- A value of the `metadata` of an audit event.
pub data MetaValue : Type 0 where
  text : String → MetaValue
  flag : Bool → MetaValue
  number : ℕ → MetaValue
  time : ℕ → MetaValue

pub record AuditEvent : Type 0 where
  pub tenant_id : Option ℕ
  pub actor_id : Option ℕ
  pub action : String
  pub target_type : String
  pub target_id : Option ℕ
  pub result : String
  pub metadata : List (String × MetaValue)

pub record OutboxEvent : Type 0 where
  pub id : ℕ
  pub tenant_id : ℕ
  pub aggregate_type : String
  pub aggregate_id : ℕ
  pub event_type : String
  pub event_version : ℕ
  pub prompt_id : ℕ
  pub analysis_id : ℕ
  pub occurred_at : ℕ
  pub published_at : Option ℕ
  pub attempts : ℕ

pub record SupportGrant : Type 0 where
  pub id : ℕ
  pub tenant_id : ℕ
  pub requested_by_id : ℕ
  pub approved_by_id : Option ℕ
  pub reason : String
  pub expires_at : Option ℕ
  pub revoked_at : Option ℕ

pub record Db : Type 0 where
  pub users : List User
  pub tenants : List Tenant
  pub memberships : List Membership
  pub sessions : List Session
  pub auth_tokens : List AuthToken
  pub projects : List Project
  pub installations : List ConnectorInstallation
  pub devices : List DeviceAuthorization
  pub credentials : List ConnectorCredential
  pub prompts : List Prompt
  pub prompt_versions : List PromptVersion
  pub tags : List Tag
  pub prompt_tags : List PromptTag
  pub analyses : List Analysis
  pub usage : List UsageRecord
  pub audit : List AuditEvent
  pub outbox : List OutboxEvent
  pub support_grants : List SupportGrant
