-- ===== src/Auth/Tokens/Tests.antt =====
-- Examples for the reset of a password.
use promptlens_v.Prelude.{◌≡◌, ◌≢◌, refl, inl, some, IsKey-one}
use promptlens_v.Store.{ok}
use promptlens_v.Store.Memory.{memory}
use promptlens_v.Auth.{AuthDraw, authenticate}
use promptlens_v.Auth.Sample.{setup, home, actor, token}
use promptlens_v.Auth.Tokens.{reset_password, reset_password_body}
use promptlens_v.Auth.Tokens.Reset.{reset_locks_out}

abbrev draw : AuthDraw
draw = record { now = 3000; token = "t"; salt = "s"; new_id = 80 }

reset_done : (reset_password memory setup "reset" "new" draw home).0 ≡ ok tt
unfolding reset_password reset_password_body
reset_done = refl

reset_locks_out_example :
    (authenticate memory setup
      (some "session")
      4000
      (reset_password memory setup "reset" "new" draw home).1).0
    ≢ ok actor
reset_locks_out_example =
    reset_locks_out memory setup "reset" "new" "session" draw 4000 home token actor
      (IsKey-one (λ x. x.token_hash) token) (inl refl) refl reset_done refl
