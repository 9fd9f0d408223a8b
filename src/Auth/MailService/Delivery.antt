-- ===== src/Auth/MailService/Delivery.antt =====
-- A verification mail goes to the transport where a host is given.
use promptlens_v.Prelude.{String, true, ◌≡◌, refl, arith, inl, inr, some, Option-cases}
use promptlens_v.Config.{RuntimeConfig, given, is_given}
use promptlens_v.Auth.MailService.{
  TransportOptions, options_for, transporter, send_mail, mail_message, verification_url,
  send_verification,
}

pub send_verification_given :
    (encode_uri_component : String → String) (config : RuntimeConfig) (email token : String)
    → is_given config.smtp_host ≡ true
    → (options : TransportOptions) × (send_verification encode_uri_component config email token
        ≡ some (
          options,
          mail_message config email "Verify your PromptLens email"
              (verification_url encode_uri_component config token),
        ))
unfolding transporter send_mail send_verification
send_verification_given encode_uri_component config email token h =
    elim (Option-cases (given config.smtp_host)) [
      | inl missing ↦ absurd (ground arith)
      | inr (host, e) ↦ (options_for config host, rw (send_verification, e) refl)
    ]
