-- ===== src/Projects/Tests.antt =====
-- Examples for the projects.
use promptlens_v.Prelude.{◌≡◌, refl, true, false, none, some, [], ◌∷◌}
use promptlens_v.Store.{err, unique_violation}
use promptlens_v.Store.Memory.{memory}
use promptlens_v.Schema.{Db, ProjectStatus, MembershipRole}
use promptlens_v.Schema.Sample.{blank}
use promptlens_v.Actor.{AuthenticatedActor}
use promptlens_v.Projects.{create_project, create_project_body}
use promptlens_v.Projects.Changes.{ProjectCall, after_call, IsValid, after_call-IsValid}

abbrev member : AuthenticatedActor
member = record {
  user_id = 5;
  tenant_id = 1;
  role = MembershipRole.member;
  session_id = 9;
  is_instance_admin = false;
}

abbrev kept : Db
kept = record blank {
  projects =
      record {
        id = 4;
        tenant_id = 1;
        name = "Default";
        description = none;
        status = ProjectStatus.active;
        archived_at = none;
      }
      ∷ [];
}

name_taken :
    create_project memory member 6 (record { name = "Default"; description = none }) kept
    ≡ (err unique_violation, kept)
unfolding create_project create_project_body
name_taken = refl

abbrev archive : ProjectCall
archive =
    ProjectCall.change_of 4 1000
      (record { name = some "Old"; description = none; archived = some true })

after_call-IsValid_example : IsValid (after_call memory member archive kept)
after_call-IsValid_example = after_call-IsValid memory member archive kept ((tt, tt), (refl, tt))
