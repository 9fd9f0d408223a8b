-- ===== src/Device/Tests.antt =====
-- The device flow at concrete inputs, with a database in memory and hashes that keep their input.
use promptlens_v.Prelude.{◌≡◌, ◌≢◌, refl, some, [], ◌∷◌, arith, IsKey-one, inl}
use promptlens_v.Store.{ok, err, unauthorized}
use promptlens_v.Store.Memory.{memory}
use promptlens_v.Schema.{ConnectorCredential}
use promptlens_v.Device.{
  poll, poll_body, poll_row, poll_ready, claim, verifier_fails, refresh, refresh_body, refresh_row,
  refresh_usable, rotate, credential_for, token_response, approve, approve_body, approve_for,
  authenticate, check_connector, installation_for, approved_event,
}
use promptlens_v.Device.Sample.{
  plain, waiting, draw, later, tokens, credential, connected, reused, owner, asked, who,
}
use promptlens_v.Device.Poll.{Issue, poll-Issue}
use promptlens_v.Device.Lifecycle.{IsKeyed}
use promptlens_v.Device.Refresh.{IsKeyed as IsKeyedCredentials}
use promptlens_v.Device.Rotation.{Rotation, refresh-Rotation, refresh_twice}
use promptlens_v.Device.Authenticate.{reuse_locks_out}
use promptlens_v.Device.Approve.{Approval, approve-Approval}

issued : (poll memory plain "pld_1" (some "proof") draw waiting).0 ≡ ok tokens
unfolding poll poll_body poll_row poll_ready claim verifier_fails credential_for token_response
issued = refl

waiting-IsKeyed : IsKeyed waiting.devices
waiting-IsKeyed = record { by_id = IsKey-one _ _; by_code = IsKey-one _ _ }

poll-Issue_example :
    Issue memory plain "pld_1"
      (some "proof")
      draw
      waiting
      (poll memory plain "pld_1" (some "proof") draw waiting).1
      tokens
poll-Issue_example = poll-Issue memory plain "pld_1" (some "proof") draw waiting tokens issued

credential-IsKeyed : (c : ConnectorCredential) → IsKeyedCredentials (c ∷ [])
credential-IsKeyed c = record { by_id = IsKey-one _ _; by_refresh = IsKey-one _ _ }

rotated :
    (refresh memory plain "plr_1" later connected).0
    ≡ ok (record tokens { access_token = "pla_2"; refresh_token = "plr_2" })
unfolding refresh refresh_body refresh_row refresh_usable rotate credential_for token_response
rotated = refl

refresh-Rotation_example :
    Rotation memory plain "plr_1" later connected
      (refresh memory plain "plr_1" later connected).1
      (record tokens { access_token = "pla_2"; refresh_token = "plr_2" })
refresh-Rotation_example =
    refresh-Rotation memory plain "plr_1" later connected
      (record tokens { access_token = "pla_2"; refresh_token = "plr_2" }) rotated

refresh_twice_example :
    (refresh memory plain "plr_1"
      (record later { now = 30_000 })
      (refresh memory plain "plr_1" later connected).1).0
    ≡ err (unauthorized "Refresh token reuse detected.")
refresh_twice_example =
    (refresh_twice memory plain "plr_1" later (record later { now = 30_000 }) connected
      (record tokens { access_token = "pla_2"; refresh_token = "plr_2" }) credential
      (credential-IsKeyed _) (inl refl) refl (omega arith) rotated).0

accepted : authenticate memory plain (some "pla_1") 6_000 connected ≡ ok who
unfolding authenticate check_connector
accepted = refl

abbrev withdrawn_credential : ConnectorCredential
withdrawn_credential = record credential { used_at = some 1_000; revoked_at = some 20_000 }

reuse_after : (refresh memory plain "plr_1" later reused).1.credentials ≡ withdrawn_credential ∷ []
unfolding refresh refresh_body refresh_row refresh_usable
reuse_after = refl

reuse_locks_out_example :
    authenticate memory plain (some "pla_1") 6_000 (refresh memory plain "plr_1" later reused).1
    ≢ ok who
reuse_locks_out_example =
    reuse_locks_out memory plain "plr_1" "pla_1" later 6_000 reused
      (record credential { used_at = some 1_000 }) withdrawn_credential who (credential-IsKeyed _)
      (inl refl) refl refl (omega arith) refl (rw reuse_after (IsKey-one _ _))
      (rw reuse_after (inl refl)) refl refl

approval : (approve memory plain owner "ABCDEFGH" 9 2_000 5 asked).0 ≡ ok tt
unfolding approve approve_body approve_for installation_for approved_event
approval = refl

approve-Approval_example :
    Approval memory plain owner "ABCDEFGH" 9 2_000 5 asked
      (approve memory plain owner "ABCDEFGH" 9 2_000 5 asked).1
approve-Approval_example = approve-Approval memory plain owner "ABCDEFGH" 9 2_000 5 asked approval
