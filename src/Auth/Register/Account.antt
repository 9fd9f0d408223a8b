-- ===== src/Auth/Register/Account.antt =====
-- What a registration creates.
use promptlens_v.Prelude.{
  String, ◌≡◌, refl, ◌&&◌, Option, [], ◌∷◌, ◌++◌, arith, count, ◌==◌, ℕ_eq, if◌then◌else◌, ltb,
}
use promptlens_v.Store.{Prisma, Result, ok, err, commit, insert}
use promptlens_v.Schema.{Db, User}
use promptlens_v.Auth.{
  AuthSetup, ClientMetadata, SessionResponse, Mail, session_for, session_clash, token_clash,
  no_clash,
}
use promptlens_v.Auth.Register.{
  RegisterRequest, RegisterDraw, register, register_body, register_answer, new_user, new_tenant,
  new_membership, first_token, user_clash, tenant_clash, everyone, verification_mail,
}

-- What a registration that succeeds created: a user who is an instance administrator exactly if there
-- was no user before, and this user's workspace, ownership and session.
pub record Registered (db : Prisma) (setup : AuthSetup) (slugify : String → String)
    (input : RegisterRequest) (client : ClientMetadata) (d : RegisterDraw) (s s' : Db) (user : User)
    : Type 0 where
  pub who : user ≡ new_user db setup slugify input d (count everyone s.users == 0)
  pub users : s'.users ≡ s.users ++ user ∷ []
  pub tenants : s'.tenants ≡ s.tenants ++ new_tenant db setup slugify input d ∷ []
  pub memberships : s'.memberships ≡ s.memberships ++ new_membership db setup slugify d ∷ []
  pub sessions :
      s'.sessions ≡ s.sessions ++ session_for db setup d.user_id d.tenant_id client d.session ∷ []
  pub tokens : s'.auth_tokens ≡ (
      if setup.email_verification_required && ltb 0 (count everyone s.users)
      then s.auth_tokens ++ first_token db setup slugify d ∷ []
      else s.auth_tokens)

module _ (db : Prisma) (setup : AuthSetup) (slugify : String → String) where
  register_inv :
      (input : RegisterRequest) (client : ClientMetadata) (d : RegisterDraw) (s s' : Db)
      (user : User)
      → register_body db setup slugify input client d s ≡ ok (user, s')
      → Registered db setup slugify input client d s s' user
  unfolding register_body
  register_inv input client d s s' user h = record {
    who = ground (arith, counts);
    users = ground (arith, counts, makes_user);
    tenants = ground (arith, makes_tenant);
    memberships = ground (arith, makes_membership);
    sessions = ground (arith, makes_session);
    tokens = ground (arith, counts, makes_token);
  }
    where
      counts : db.row_count everyone s.users ≡ count everyone s.users
      counts = db.row_count_lem _ _

      user0 : User
      user0 = new_user db setup slugify input d (count everyone s.users == 0)

      makes_user : db.create user_clash user0 s.users ≡ insert user_clash user0 s.users
      makes_user = db.create_lem _ _ _

      makes_tenant :
          db.create tenant_clash (new_tenant db setup slugify input d) s.tenants
          ≡ insert tenant_clash (new_tenant db setup slugify input d) s.tenants
      makes_tenant = db.create_lem _ _ _

      makes_membership :
          db.create no_clash (new_membership db setup slugify d) s.memberships
          ≡ insert no_clash (new_membership db setup slugify d) s.memberships
      makes_membership = db.create_lem _ _ _

      makes_session :
          db.create session_clash
            (session_for db setup d.user_id d.tenant_id client d.session)
            s.sessions
          ≡ insert session_clash
              (session_for db setup d.user_id d.tenant_id client d.session)
              s.sessions
      makes_session = db.create_lem _ _ _

      makes_token :
          db.create token_clash (first_token db setup slugify d) s.auth_tokens
          ≡ insert token_clash (first_token db setup slugify d) s.auth_tokens
      makes_token = db.create_lem _ _ _

  answered :
      (input : RegisterRequest) (d : RegisterDraw) (s : Db) (x : Result (User × Db))
      (a : SessionResponse) (mail : Option Mail)
      → register_answer db setup slugify input d (commit s x).0 ≡ ok (a, mail)
      → (user : User) × (x ≡ ok (user, (commit s x).1))
        × (a.user_id ≡ user.id)
        × (mail ≡ verification_mail db setup slugify user d)
  answered input d s (ok (user, s')) a mail h = (user, refl, ground arith, ground arith)
  answered input d s (err e) a mail h = absurd (ground arith)

  -- A registration that succeeds creates one user, an instance administrator exactly if there was no
  -- user before, with a workspace that the user owns and an open session in it. It stores a
  -- verification token, and answers with the mail that carries it, where the configuration asks for
  -- verified emails and the user is not the first.
  pub register-Registered :
      (input : RegisterRequest) (client : ClientMetadata) (d : RegisterDraw) (s : Db)
      (a : SessionResponse) (mail : Option Mail)
      → (register db setup slugify input client d s).0 ≡ ok (a, mail)
      → (user : User) × Registered db setup slugify input client d s
          (register db setup slugify input client d s).1
          user
        × (a.user_id ≡ user.id)
        × (mail ≡ verification_mail db setup slugify user d)
  unfolding register
  register-Registered input client d s a mail h =
      let (user, e, same, sent) =
        answered input d s (register_body db setup slugify input client d s) a mail
          (rw (register, db.transaction_lem) at h) in
      (user, rw (register, db.transaction_lem) (register_inv input client d s _ user e), same, sent)
