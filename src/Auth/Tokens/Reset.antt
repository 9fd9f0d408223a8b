-- ===== src/Auth/Tokens/Reset.antt =====
-- What `resetPassword` does to the tokens and the sessions of a user.
use promptlens_v.Prelude.{
  ℕ, String, ◌≡◌, ◌≢◌, refl, sym, ap, ◌∙◌, subst, ◌<◌, Bool, true, false, none, some, arith, inl,
  inr, change, count, In, In-change, Bool-cases, Option-cases, nat_eq_iff, String_eq, ◌==◌, ℕ_eq,
  IsKey,
}
use promptlens_v.Store.{Prisma, Result, ok, err, commit, modify}
use promptlens_v.Schema.{Db, Session, User, AuthToken}
use promptlens_v.Schema.Enums.{is_password_reset}
use promptlens_v.Actor.{AuthenticatedActor}
use promptlens_v.Auth.{
  AuthSetup, AuthDraw, authenticate, usable_token, spent, open_user_session, ended,
}
use promptlens_v.Auth.Sessions.{authenticate-SignedIn}
use promptlens_v.Auth.Tokens.{
  find_token, refused_token, consumed, reset_password_body, reset_password,
}

-- What a reset that succeeds found, and what it did.
pub record ResetDone (db : Prisma) (setup : AuthSetup) (token password : String) (d : AuthDraw)
    (s s' : Db) : Type 0 where
  pub token_row : AuthToken
  pub held : In token_row s.auth_tokens
  pub named : token_row.token_hash ≡ setup.digest token
  pub unused : token_row.used_at ≡ none
  pub early : d.now < token_row.expires_at
  pub purpose : is_password_reset token_row.purpose ≡ true
  pub after : s' ≡ record s {
    auth_tokens = change (usable_token token_row.id d.now) (spent d.now) s.auth_tokens;
    users =
        change
          (λ u. u.id == token_row.user_id)
          (λ u. record u { password_hash = setup.argon_hash password d.salt })
          s.users;
    sessions = change (open_user_session token_row.user_id) (ended d.now) s.sessions;
  }

module _ (db : Prisma) (setup : AuthSetup) where
  body_inv :
      (t : AuthToken) (hashed : String) (now : ℕ) (s s' : Db)
      → reset_password_body db setup t hashed now s ≡ ok (true, s')
      → s' ≡ record s {
        auth_tokens = change (usable_token t.id now) (spent now) s.auth_tokens;
        users = change (λ u. u.id == t.user_id) (λ u. record u { password_hash = hashed }) s.users;
        sessions = change (open_user_session t.user_id) (ended now) s.sessions;
      }
  unfolding reset_password_body
  body_inv t hashed now s s' h = ground (arith, claims, sets, ends)
    where
      claims : db.update_many (usable_token t.id now) (spent now) s.auth_tokens ≡ (
        change (usable_token t.id now) (spent now) s.auth_tokens,
        count (usable_token t.id now) s.auth_tokens,
      )
      claims = db.update_many_lem _ _ _

      sets :
          db.update
            (λ (u : User). u.id == t.user_id)
            (λ u. record u { password_hash = hashed })
            s.users
          ≡ modify
              (λ (u : User). u.id == t.user_id)
              (λ u. record u { password_hash = hashed })
              s.users
      sets = db.update_lem _ _ _

      ends : db.update_many (open_user_session t.user_id) (ended now) s.sessions ≡ (
        change (open_user_session t.user_id) (ended now) s.sessions,
        count (open_user_session t.user_id) s.sessions,
      )
      ends = db.update_many_lem _ _ _

  consumed_inv :
      (s : Db) (x : Result (Bool × Db)) (message : String)
      → (consumed db setup message (commit s x)).0 ≡ ok tt
      → x ≡ ok (true, (consumed db setup message (commit s x)).1)
  consumed_inv s (ok (true, s')) message h = refl
  consumed_inv s (ok (false, s')) message h = cc
  consumed_inv s (err e) message h = cc

  -- A reset that succeeds found an unused and unexpired reset token; it stores the hash of the new
  -- password, spends the token and revokes every open session of the user, and nothing else.
  pub reset_password-ResetDone :
      (token password : String) (d : AuthDraw) (s : Db)
      → (reset_password db setup token password d s).0 ≡ ok tt
      → ResetDone db setup token password d s (reset_password db setup token password d s).1
  unfolding reset_password
  reset_password-ResetDone token password d s h =
      elim (Option-cases (find_token db setup token s)) [
        | inl e ↦ absurd (ground arith)
        | inr (t, e) ↦ elim (Bool-cases (refused_token is_password_reset t d.now)) [
          | inl refused ↦ absurd (ground arith)
          | inr valid ↦
              let (named, held) =
                db.found (λ (z : AuthToken). z.token_hash == setup.digest token) s.auth_tokens t
                  e in
              record {
                token_row = t;
                held = held;
                named = (String_eq.same_iff _ _).0 named;
                unused = ground arith;
                early = ground arith;
                purpose = ground arith;
                after =
                    rw (reset_password, e, valid, db.transaction_lem)
                      (body_inv t (setup.argon_hash password d.salt) d.now s _ (
                        consumed_inv s
                          (reset_password_body db setup t (setup.argon_hash password d.salt) d.now
                            s)
                          "Password reset token is invalid or expired."
                          (rw (reset_password, e, valid, db.transaction_lem) at h)));
              }
        ]
      ]

  -- After a reset no session token gives access as the user whose token it was, whoever holds one,
  -- where the hashes of the tokens are keys of the table.
  pub reset_locks_out :
      (token password session : String) (d : AuthDraw) (later : ℕ) (s : Db) (t : AuthToken)
      (who : AuthenticatedActor)
      → IsKey (λ x. x.token_hash) s.auth_tokens
      → In t s.auth_tokens
      → t.token_hash ≡ setup.digest token
      → (reset_password db setup token password d s).0 ≡ ok tt
      → who.user_id ≡ t.user_id
      → (authenticate db setup
          (some session)
          later
          (reset_password db setup token password d s).1).0
        ≢ ok who
  reset_locks_out token password session d later s t who keyed here named h same back =
      let r = reset_password-ResetDone token password d s h in
      let one : r.token_row ≡ t = keyed r.token_row t r.held here (r.named ∙ sym named) in
      let (_, _, x) =
        authenticate-SignedIn db setup (some session) later
          (reset_password db setup token password d s).1 who back in
      let (y, _, e) =
        In-change (open_user_session r.token_row.user_id) (ended d.now) x.session s.sessions
          (subst (λ (z : Db). In x.session z.sessions) r.after x.held) in
      absurd (
        ground (
          arith,
          x.live,
          same,
          ap (λ (z : AuthToken). z.user_id) one,
          ap (λ (z : AuthenticatedActor). z.user_id) x.who_is,
          ap (λ (z : Session). z.revoked_at) e,
          ap (λ (z : Session). z.user_id) e,
          nat_eq_iff y.user_id r.token_row.user_id,
        ))

  -- A reset token works once: a second reset with it is refused, whatever the password and the time,
  -- where the hashes of the tokens are keys of the table.
  pub reset_once :
      (token password again : String) (d d' : AuthDraw) (s : Db)
      → IsKey (λ x. x.token_hash) s.auth_tokens
      → (reset_password db setup token password d s).0 ≡ ok tt
      → (reset_password db setup token again d' (reset_password db setup token password d s).1).0
        ≢ ok tt
  reset_once token password again d d' s keyed h h' =
      let r = reset_password-ResetDone token password d s h in
      let r' =
        reset_password-ResetDone token again d' (reset_password db setup token password d s).1 h' in
      let (y, j, e) =
        In-change (usable_token r.token_row.id d.now) (spent d.now) r'.token_row s.auth_tokens
          (subst (λ (z : Db). In r'.token_row z.auth_tokens) r.after r'.held) in
      let hash : y.token_hash ≡ r'.token_row.token_hash =
        ground (arith, ap (λ (z : AuthToken). z.token_hash) e) in
      let one : y ≡ r.token_row = keyed y r.token_row j r.held (hash ∙ r'.named ∙ sym r.named) in
      absurd (
        ground (
          arith,
          r'.unused,
          r.unused,
          r.early,
          ap (λ (z : AuthToken). z.id) one,
          ap (λ (z : AuthToken). z.used_at) one,
          ap (λ (z : AuthToken). z.expires_at) one,
          ap (λ (z : AuthToken). z.used_at) e,
          nat_eq_iff y.id r.token_row.id,
        ))
