-- ===== src/Device/Race/Tests.antt =====
-- Overlapping calls at concrete inputs.
use promptlens_v.Prelude.{
  ◌≡◌, ◌≤◌, refl, some, [], ◌∷◌, List, arith, inl, In, count, ◌==◌, String_eq, IsKey-one,
}
use promptlens_v.Store.{ok}
use promptlens_v.Store.Memory.{memory}
use promptlens_v.Store.Overlap.{Event, reads, resumes, overlap, overlap_step, quiet}
use promptlens_v.Schema.{Db, DeviceAuthorizationStatus}
use promptlens_v.Device.{
  poll, poll_body, poll_row, poll_ready, claim, verifier_fails, credential_for, token_response,
  approve_for, installation_for, approved_event, admit, refresh_row, refresh_usable, rotate,
}
use promptlens_v.Device.Sample.{
  plain, admitted, waiting, draw, later, owner, project, requested, asked, connected,
}
use promptlens_v.Device.History.{polls}
use promptlens_v.Device.Race.{
  polling, refreshing, read_poll, go_on_poll, read_refresh, go_on_refresh, code_exchanged,
  approve_on,
}
use promptlens_v.Device.Race.Once.{code_exchanged_once}
use promptlens_v.Device.Race.Refreshed.{token_exchanged_once}
use promptlens_v.Device.Race.Approvals.{late_approval_reopens}

-- Two polls that both read the approved authorization before either goes on.
abbrev two_polls : List (Event (polling memory plain))
two_polls =
    reads 0 (record { device_code = "pld_1"; verifier = some "proof"; draw = draw })
    ∷ reads 1 (record { device_code = "pld_1"; verifier = some "proof"; draw = later })
    ∷ resumes 1
    ∷ resumes 0
    ∷ []

one_exchange :
    (overlap (polling memory plain) two_polls (quiet (polling memory plain) waiting)).exchanged
    ≡ "pld_1" ∷ []
unfolding overlap overlap_step read_poll go_on_poll poll_row poll_ready claim verifier_fails
    credential_for token_response
one_exchange = refl

code_exchanged_once_example :
    count
      (λ k. k == "pld_1")
      (overlap (polling memory plain) two_polls (quiet (polling memory plain) waiting)).exchanged
    ≤ 1
code_exchanged_once_example =
    code_exchanged_once memory plain two_polls waiting "pld_1"
      (record { by_id = IsKey-one _ _; by_code = IsKey-one _ _ })

-- Two refreshes that both read the unused credential before either goes on.
abbrev two_refreshes : List (Event (refreshing memory plain))
two_refreshes =
    reads 0 (record { refresh_token = "plr_1"; draw = later })
    ∷ reads 1 (record { refresh_token = "plr_1"; draw = later })
    ∷ resumes 0
    ∷ resumes 1
    ∷ []

one_rotation :
    (overlap
      (refreshing memory plain)
      two_refreshes
      (quiet (refreshing memory plain) connected)).exchanged
    ≡ "plr_1" ∷ []
unfolding overlap overlap_step read_refresh go_on_refresh refresh_row refresh_usable rotate
    credential_for token_response
one_rotation = refl

token_exchanged_once_example :
    count
      (λ k. k == "plr_1")
      (overlap
        (refreshing memory plain)
        two_refreshes
        (quiet (refreshing memory plain) connected)).exchanged
    ≤ 1
token_exchanged_once_example =
    token_exchanged_once memory plain two_refreshes connected "plr_1"
      (record { by_id = IsKey-one _ _; by_refresh = IsKey-one _ _ })

-- The authorization was read while it was pending; meanwhile it was approved and exchanged.
abbrev spent_meanwhile : Db
spent_meanwhile = record asked {
  devices = record admitted { status = DeviceAuthorizationStatus.consumed } ∷ [];
}

late_approval_reopens_example :
    ((approve_on memory plain owner 9 2_000 6 (some requested) spent_meanwhile).0 ≡ ok tt)
    × In
        (admit owner 9 6 (record admitted { status = DeviceAuthorizationStatus.consumed }))
        (approve_on memory plain owner 9 2_000 6 (some requested) spent_meanwhile).1.devices
late_approval_reopens_example =
    late_approval_reopens memory plain owner 9 2_000 6 requested
      (record admitted { status = DeviceAuthorizationStatus.consumed }) spent_meanwhile project refl
      (omega arith) refl (inl refl) refl

-- The code is exchanged again after the late approval.
exchanged_again :
    code_exchanged memory plain
      (polls "pld_1" (some "proof") later)
      (approve_on memory plain owner 9 2_000 6 (some requested) spent_meanwhile).1
    ≡ some "pld_1"
unfolding code_exchanged poll poll_body poll_row poll_ready claim verifier_fails credential_for
    token_response approve_on approve_for installation_for approved_event
exchanged_again = refl
