-- ===== src/Auth/Register/Tests.antt =====
-- Examples for a registration.
use promptlens_v.Prelude.{◌≡◌, ◌⊎◌, refl, true, Option, none, some, In, is_some}
use promptlens_v.Store.{ok}
use promptlens_v.Store.Memory.{memory}
use promptlens_v.Schema.{User, MembershipRole}
use promptlens_v.Schema.Sample.{blank}
use promptlens_v.Auth.{AuthSetup, ClientMetadata, SessionResponse, Mail, normalize_email}
use promptlens_v.Auth.Sample.{setup, home}
use promptlens_v.Config.Sample.{config, schema, is_accepted}
use promptlens_v.Auth.MailService.{
  TransportOptions, mail_message, verification_url, send_verification,
}
use promptlens_v.Auth.Register.Mailed.{registration_mailed}
use promptlens_v.Auth.Register.{RegisterRequest, RegisterDraw, register, register_body, new_user}

abbrev request : RegisterRequest
request = record {
  email = "b@example.com";
  password = "secret";
  display_name = "B";
  tenant_name = "Team";
}

abbrev client : ClientMetadata
client = record { ip_hash = none; user_agent = none }

abbrev draw : RegisterDraw
draw = record {
  session = record { now = 1000; token = "s"; salt = "x"; new_id = 11 };
  verification = record { now = 1000; token = "v"; salt = ""; new_id = 12 };
  suffix = "ab12";
  user_id = 6;
  tenant_id = 2;
  project_id = 3;
}

abbrev answer : SessionResponse
answer = record {
  user_id = 6;
  email = "b@example.com";
  display_name = "B";
  tenant_id = 2;
  tenant_name = "Team";
  role = MembershipRole.owner;
}

is_registered :
    (register memory setup (λ t. "team") request client draw blank).0 ≡ ok (answer, none)
unfolding register register_body new_user normalize_email
is_registered = refl

abbrev strict : AuthSetup
strict = record setup { email_verification_required = true }

abbrev mailed : Option Mail
mailed = some ("b@example.com", "v")

is_registered_behind :
    (register memory strict (λ t. "team") request client draw home).0 ≡ ok (answer, mailed)
unfolding register register_body new_user normalize_email
is_registered_behind = refl

registration_mailed_example :
    (user : User) × In user (register memory strict (λ t. "team") request client draw home).1.users
    × (6 ≡ user.id)
    × ((is_some user.email_verified_at ≡ true)
        ⊎ ((mailed ≡ some (user.email, "v"))
            × (options : TransportOptions) × (send_verification (λ t. t) config user.email "v"
                ≡ some (
                  options,
                  mail_message config user.email "Verify your PromptLens email"
                      (verification_url (λ t. t) config "v"),
                ))))
registration_mailed_example =
    registration_mailed memory strict (λ t. "team") schema (λ name. none) config (λ t. t) request
      client draw home answer mailed is_accepted refl is_registered_behind
