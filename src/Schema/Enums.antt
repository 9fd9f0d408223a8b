-- ===== src/Schema/Enums.antt =====
-- The tests on the enumerations of the schema (`===` between constants).
use promptlens_v.Prelude.{Bool, true, false}
use promptlens_v.Schema.{
  MembershipRole, UserStatus, ProjectStatus, ConnectorStatus, DeviceAuthorizationStatus,
  AnalysisStatus, AuthTokenPurpose,
}

abbrev pub is_owner : MembershipRole → Bool
is_owner MembershipRole.owner = true
is_owner _ = false

abbrev pub is_viewer : MembershipRole → Bool
is_viewer MembershipRole.viewer = true
is_viewer _ = false

abbrev pub is_active_user : UserStatus → Bool
is_active_user UserStatus.active = true
is_active_user _ = false

abbrev pub is_active_project : ProjectStatus → Bool
is_active_project ProjectStatus.active = true
is_active_project _ = false

abbrev pub is_active_connector : ConnectorStatus → Bool
is_active_connector ConnectorStatus.active = true
is_active_connector _ = false

abbrev pub is_pending : DeviceAuthorizationStatus → Bool
is_pending DeviceAuthorizationStatus.pending = true
is_pending _ = false

abbrev pub is_approved : DeviceAuthorizationStatus → Bool
is_approved DeviceAuthorizationStatus.approved = true
is_approved _ = false

abbrev pub is_queued : AnalysisStatus → Bool
is_queued AnalysisStatus.queued = true
is_queued _ = false

abbrev pub is_running : AnalysisStatus → Bool
is_running AnalysisStatus.running = true
is_running _ = false

abbrev pub is_completed : AnalysisStatus → Bool
is_completed AnalysisStatus.completed = true
is_completed _ = false

abbrev pub is_failed : AnalysisStatus → Bool
is_failed AnalysisStatus.failed = true
is_failed _ = false

abbrev pub is_email_verification : AuthTokenPurpose → Bool
is_email_verification AuthTokenPurpose.email_verification = true
is_email_verification _ = false

abbrev pub is_password_reset : AuthTokenPurpose → Bool
is_password_reset AuthTokenPurpose.password_reset = true
is_password_reset _ = false
