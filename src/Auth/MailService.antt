-- ===== src/Auth/MailService.antt =====
-- apps/api/src/auth/mail.service.ts: what the service hands over to the mail transport. The transport
-- is a third-party client; `encodeURIComponent` is a parameter.
pub mod Delivery
use Prim.Native.String.{◌++◌ as concat}
use mathlib.Core.Option
use promptlens_v.Prelude.{ℕ, String, Bool, Option, none, some}
use promptlens_v.Config.{RuntimeConfig, given}

pub record TransportOptions : Type 0 where
  pub host : String
  pub port : ℕ
  pub secure : Bool
  pub auth : Option (String × String)

pub record Message : Type 0 where
  pub sender : String
  pub recipient : String
  pub subject : String
  pub text : String
  pub html : String

abbrev both : Option String → Option String → Option (String × String)
both none password = none
both (some user) none = none
both (some user) (some password) = some (user, password)

abbrev options_for : RuntimeConfig → (host : String) → TransportOptions
options_for config host = record {
  host = host;
  port = config.smtp_port;
  secure = config.smtp_secure;
  auth = both (given config.smtp_user) (given config.smtp_password);
}

-- The constructor.
pub transporter : RuntimeConfig → Option TransportOptions
transporter config = Option.map (options_for config) (given config.smtp_host)

abbrev pub mail_message : RuntimeConfig → (to subject action_url : String) → Message
mail_message config to subject action_url = record {
  sender = config.smtp_from;
  recipient = to;
  subject = subject;
  text = concat subject (concat ": " action_url);
  html = concat "<p>" (
      concat subject
        (concat "</p><p><a href=\"" (concat action_url "\">Continue securely</a></p>")));
}

-- none where the mail is dropped with a warning.
pub send_mail :
    RuntimeConfig → (to subject action_url : String) → Option (TransportOptions × Message)
send_mail config to subject action_url =
    Option.map (λ options. (options, mail_message config to subject action_url))
      (transporter config)

module _ (encode_uri_component : String → String) (config : RuntimeConfig) where
  pub verification_url : (token : String) → String
  verification_url token =
      concat config.web_origin (concat "/verify-email?token=" (encode_uri_component token))

  pub send_verification : (email token : String) → Option (TransportOptions × Message)
  send_verification email token =
      send_mail config email "Verify your PromptLens email" (verification_url token)

  pub send_password_reset : (email token : String) → Option (TransportOptions × Message)
  send_password_reset email token =
      send_mail config email "Reset your PromptLens password"
        (concat config.web_origin (concat "/reset-password?token=" (encode_uri_component token)))
