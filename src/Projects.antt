-- ===== src/Projects.antt =====
-- apps/api/src/projects/projects.service.ts, with packages/domain/src/projects/project-name.ts and
-- the requests of packages/contracts/src/projects/projects.ts. The times createdAt and updatedAt
-- of a project are left out of the table; a response holds the other columns.
pub mod Name
pub mod Clashes
pub mod Changes
mod Tests
use promptlens_v.Prelude.{
  ℕ, String, Bool, true, false, not, ◌&&◌, ◌||◌, Option, none, some, List, [], ◌==◌, ℕ_eq,
  String_eq, if◌then◌else◌,
}
use promptlens_v.Store.{
  Prisma, Tx, Error, Result, ok, err, forbidden, not_found, ◌>>=◌, ◌>>◌, pure, require, find_first,
  update_unique, create,
}
use promptlens_v.Schema.{Db, Project, ProjectStatus, MembershipRole}
use promptlens_v.Schema.Tables.{projects}
use promptlens_v.Actor.{AuthenticatedActor}

pub record CreateProjectRequest : Type 0 where
  pub name : String
  pub description : Option String

pub record UpdateProjectRequest : Type 0 where
  pub name : Option String
  pub description : Option String
  pub archived : Option Bool

pub record ProjectResponse : Type 0 where
  pub id : ℕ
  pub name : String
  pub description : Option String
  pub status : ProjectStatus

abbrev pub to_response : Project → ProjectResponse
to_response p = record { id = p.id; name = p.name; description = p.description; status = p.status }

-- WRITE_ROLES
abbrev pub may_write : MembershipRole → Bool
may_write MembershipRole.owner = true
may_write MembershipRole.admin = true
may_write MembershipRole.member = true
may_write MembershipRole.viewer = false

-- The primary key and `@@unique([tenantId, name])`.
abbrev pub clashes : Project → Project → Bool
clashes a b = a.id == b.id || (a.tenant_id == b.tenant_id && a.name == b.name)

abbrev pub new_project : AuthenticatedActor → (id : ℕ) → CreateProjectRequest → Project
new_project actor id input = record {
  id = id;
  tenant_id = actor.tenant_id;
  name = input.name;
  description = input.description;
  status = ProjectStatus.active;
  archived_at = none;
}

-- The workspace's project of that id.
abbrev pub existing : AuthenticatedActor → (project_id : ℕ) → Project → Bool
existing actor project_id p = p.id == project_id && p.tenant_id == actor.tenant_id

-- `...(x === undefined ? {} : { x })`
abbrev pub renamed : Option String → Project → Project
renamed none p = p
renamed (some name) p = record p { name = name }

abbrev pub described : Option String → Project → Project
described none p = p
described (some text) p = record p { description = some text }

abbrev pub shelved : Option Bool → (now : ℕ) → Project → Project
shelved none now p = p
shelved (some true) now p = record p { status = ProjectStatus.archived; archived_at = some now }
shelved (some false) now p = record p { status = ProjectStatus.active; archived_at = none }

abbrev pub updated : UpdateProjectRequest → (now : ℕ) → Project → Project
updated input now p =
    shelved input.archived now (described input.description (renamed input.name p))

abbrev pub may_not_write : Error
may_not_write = forbidden "This role cannot modify projects."

module _ (db : Prisma) where
  pub create_project_body :
      AuthenticatedActor → (id : ℕ) → CreateProjectRequest → Tx Db ProjectResponse
  create_project_body actor id input = do
    create db projects clashes (new_project actor id input)
    pure (to_response (new_project actor id input))

  pub create_project :
      AuthenticatedActor → (id : ℕ) → CreateProjectRequest → Db → Result ProjectResponse × Db
  create_project actor id input s =
      if may_write actor.role
      then db.transaction (create_project_body actor id input) s
      else (err may_not_write, s)

  pub update_project_body :
      AuthenticatedActor → (project_id now : ℕ) → UpdateProjectRequest → Tx Db ProjectResponse
  update_project_body actor project_id now input = do
    row ← find_first db projects (existing actor project_id)
    p ← require row (not_found "Project not found.")
    update_unique db projects clashes (λ q. q.id == project_id) (updated input now)
    pure (to_response (updated input now p))

  pub update_project :
      AuthenticatedActor
      → (project_id now : ℕ) → UpdateProjectRequest
      → Db
      → Result ProjectResponse × Db
  update_project actor project_id now input s =
      if may_write actor.role
      then db.transaction (update_project_body actor project_id now input) s
      else (err may_not_write, s)
