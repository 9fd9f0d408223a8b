-- ===== src/Auth/Register/Mailed.antt =====
-- A registration and the mail that verifies it, under a configuration that was accepted.
use promptlens_v.Prelude.{
  String, Bool, true, false, ◌≡◌, ◌⊎◌, sym, ◌∙◌, subst, inl, inr, Option, some, arith, In,
  In-append_last, Bool-cases, is_some, count, ◌==◌, ℕ_eq,
}
use promptlens_v.Store.{Prisma, ok}
use promptlens_v.Schema.{Db, User}
use promptlens_v.Auth.{AuthSetup, ClientMetadata, SessionResponse, Mail}
use promptlens_v.Auth.Register.{
  RegisterRequest, RegisterDraw, register, new_user, verification_mail, everyone,
}
use promptlens_v.Auth.Register.Account.{register-Registered}
use promptlens_v.Config.{RuntimeConfig, Variables, parse_runtime_config}
use promptlens_v.Config.Accepted.{accepted_host}
use promptlens_v.Auth.MailService.{
  TransportOptions, mail_message, verification_url, send_verification,
}
use promptlens_v.Auth.MailService.Delivery.{send_verification_given}

module _ (db : Prisma) (setup : AuthSetup) (slugify : String → String) where
  unverified_new_user :
      (input : RegisterRequest) (d : RegisterDraw) (first_user : Bool)
      → is_some (new_user db setup slugify input d first_user).email_verified_at ≡ false
      → setup.email_verification_required ≡ true
  unfolding new_user
  unverified_new_user input d first_user h = ground arith

  unverified_mail :
      (user : User) (d : RegisterDraw)
      → setup.email_verification_required ≡ true
      → is_some user.email_verified_at ≡ false
      → verification_mail db setup slugify user d ≡ some (user.email, d.verification.token)
  unverified_mail user d required pending = ground arith

  -- Under a configuration that parseRuntimeConfig accepts, a registration that succeeds leaves a user
  -- whose email counts as verified, or the mail that carries the verification token is handed over to
  -- the transport with the link to the page that takes the token; it is never dropped.
  pub registration_mailed :
      (object_schema : Variables → Option RuntimeConfig) (environment : Variables)
      (config : RuntimeConfig) (encode_uri_component : String → String) (input : RegisterRequest)
      (client : ClientMetadata) (d : RegisterDraw) (s : Db) (a : SessionResponse)
      (mail : Option Mail)
      → parse_runtime_config object_schema environment ≡ ok config
      → setup.email_verification_required ≡ config.email_verification_required
      → (register db setup slugify input client d s).0 ≡ ok (a, mail)
      → (user : User) × In user (register db setup slugify input client d s).1.users
        × (a.user_id ≡ user.id)
        × ((is_some user.email_verified_at ≡ true)
            ⊎ ((mail ≡ some (user.email, d.verification.token))
                × (options : TransportOptions) × (send_verification encode_uri_component config
                      user.email d.verification.token
                    ≡ some (
                      options,
                      mail_message config user.email "Verify your PromptLens email"
                          (verification_url encode_uri_component config d.verification.token),
                    ))))
  registration_mailed object_schema environment config encode_uri_component input client d s a mail
        accepted same h =
      let (user, r, who, sent) = register-Registered db setup slugify input client d s a mail h in
      (
        user,
        rw r.users (In-append_last user s.users),
        who,
        elim (Bool-cases (is_some user.email_verified_at)) [
          | inl verified ↦ inl verified
          | inr pending ↦
              let required =
                unverified_new_user input d (count everyone s.users == 0)
                  (subst (λ u. is_some u.email_verified_at ≡ false) r.who pending) in
              let (options, handed) =
                send_verification_given encode_uri_component config user.email d.verification.token
                  (accepted_host object_schema environment config accepted (sym same ∙ required)) in
              inr (sent ∙ unverified_mail user d required pending, options, handed)
        ],
      )
