-- ===== src/Schema/Sample.antt =====
-- A database with no rows, for examples.
use promptlens_v.Prelude.{[]}
use promptlens_v.Schema.{Db}

abbrev pub blank : Db
blank = record {
  users = [];
  tenants = [];
  memberships = [];
  sessions = [];
  auth_tokens = [];
  projects = [];
  installations = [];
  devices = [];
  credentials = [];
  prompts = [];
  prompt_versions = [];
  tags = [];
  prompt_tags = [];
  analyses = [];
  usage = [];
  audit = [];
  outbox = [];
  support_grants = [];
}
