-- ===== src/Auth/Tokens.antt =====
-- apps/api/src/auth/auth.service.ts: the one-time tokens that verify an email and reset a password.
pub mod Reset
mod Tests
use promptlens_v.Prelude.{
  ℕ, String, Bool, true, false, not, ◌&&◌, ◌||◌, Option, none, some, [], ◌∷◌, ◌+◌, ◌==◌, ℕ_eq,
  String_eq, ltb, leb, if◌then◌else◌, is_none,
}
use promptlens_v.Store.{
  Prisma, Tx, Result, ok, err, bad_request, ◌>>=◌, ◌>>◌, pure, ensure, require, find_first,
  update_many, update, create,
}
use promptlens_v.Schema.{Db, User, AuthToken, AuthTokenPurpose, Session}
use promptlens_v.Schema.Tables.{users, sessions, auth_tokens}
use promptlens_v.Schema.Enums.{is_active_user, is_email_verification, is_password_reset}
use promptlens_v.Auth.{
  AuthSetup, AuthDraw, Mail, normalize_email, token_for, token_clash, unspent, spent, usable_token,
  open_user_session, ended, verify_ttl_ms, reset_ttl_ms,
}

-- The check of a token before its transaction.
abbrev pub refused_token : (is_purpose : AuthTokenPurpose → Bool) → AuthToken → (now : ℕ) → Bool
refused_token is_purpose t now =
    not (is_purpose t.purpose) || (not (is_none t.used_at) || leb t.expires_at now)

module _ (db : Prisma) (setup : AuthSetup) where
  abbrev find_token : (token : String) → Db → Option AuthToken
  find_token token s = db.find_first (λ t. t.token_hash == setup.digest token) s.auth_tokens

  -- The answer to a transaction that tells whether it consumed the token.
  abbrev consumed : (message : String) → Result Bool × Db → Result (Unit {0}) × Db
  consumed message (err e, s) = (err e, s)
  consumed message (ok true, s) = (ok tt, s)
  consumed message (ok false, s) = (err (bad_request message), s)

  pub verify_email_body : AuthToken → (now : ℕ) → Tx Db Bool
  verify_email_body t now = do
    claim ← update_many db auth_tokens (usable_token t.id now) (spent now)
    if claim == 1
        then (do
          update db users (λ u. u.id == t.user_id) (λ u. record u { email_verified_at = some now })
          pure true)
        else pure false

  pub verify_email : (token : String) (now : ℕ) → Db → Result (Unit {0}) × Db
  verify_email token now s = elim (find_token token s) [
    | none ↦ (err (bad_request "Verification token is invalid or expired."), s)
    | some t ↦
        if refused_token is_email_verification t now
        then (err (bad_request "Verification token is invalid or expired."), s)
        else consumed "Verification token is invalid or expired."
            (db.transaction (verify_email_body t now) s)
  ]

  -- The older tokens of the user are spent, and a new one is stored.
  pub renew_token :
      User
      → (is_purpose : AuthTokenPurpose → Bool) → AuthTokenPurpose
      → (ttl : ℕ) → AuthDraw
      → Tx Db (Unit {0})
  renew_token user is_purpose purpose ttl d = do
    _ ← update_many db auth_tokens (unspent user.id is_purpose) (spent d.now)
    create db auth_tokens token_clash (token_for db setup user.id purpose ttl d)

  abbrev mailed : User → AuthDraw → Result (Unit {0}) × Db → Result (Option Mail) × Db
  mailed user d (ok _, s) = (ok (some (user.email, d.token)), s)
  mailed user d (err e, s) = (err e, s)

  abbrev find_user : (email : String) → Db → Option User
  find_user email s = db.find_first (λ u. u.email == normalize_email db setup email) s.users

  pub resend_verification : (email : String) → AuthDraw → Db → Result (Option Mail) × Db
  resend_verification email d s = elim (find_user email s) [
    | none ↦ (ok none, s)
    | some user ↦
        if not (is_active_user user.status) || not (is_none user.email_verified_at)
        then (ok none, s)
        else mailed user d (
            db.transaction
              (renew_token user is_email_verification AuthTokenPurpose.email_verification
                verify_ttl_ms d)
              s)
  ]

  pub request_password_reset : (email : String) → AuthDraw → Db → Result (Option Mail) × Db
  request_password_reset email d s = elim (find_user email s) [
    | none ↦ (ok none, s)
    | some user ↦
        if not (is_active_user user.status)
        then (ok none, s)
        else mailed user d (
            db.transaction
              (renew_token user is_password_reset AuthTokenPurpose.password_reset reset_ttl_ms d) s)
  ]

  pub reset_password_body : AuthToken → (hashed : String) (now : ℕ) → Tx Db Bool
  reset_password_body t hashed now = do
    claim ← update_many db auth_tokens (usable_token t.id now) (spent now)
    if claim == 1
        then (do
          update db users (λ u. u.id == t.user_id) (λ u. record u { password_hash = hashed })
          _ ← update_many db sessions (open_user_session t.user_id) (ended now)
          pure true)
        else pure false

  pub reset_password : (token password : String) → AuthDraw → Db → Result (Unit {0}) × Db
  reset_password token password d s = elim (find_token token s) [
    | none ↦ (err (bad_request "Password reset token is invalid or expired."), s)
    | some t ↦
        if refused_token is_password_reset t d.now
        then (err (bad_request "Password reset token is invalid or expired."), s)
        else consumed "Password reset token is invalid or expired."
            (db.transaction (reset_password_body t (setup.argon_hash password d.salt) d.now) s)
  ]
