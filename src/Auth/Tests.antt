-- ===== src/Auth/Tests.antt =====
-- Examples for accounts and sessions.
use promptlens_v.Prelude.{String, ◌≡◌, refl, some}
use promptlens_v.Store.{ok}
use promptlens_v.Store.Memory.{memory}
use promptlens_v.Auth.{authenticate, authenticate_body}
use promptlens_v.Auth.Sample.{setup, home, actor}
use promptlens_v.Auth.Sessions.{SignedIn, authenticate-SignedIn}

is_signed_in : (authenticate memory setup (some "session") 1000 home).0 ≡ ok actor
unfolding authenticate authenticate_body
is_signed_in = refl

authenticate-SignedIn_example :
    (t : String) × (some "session" ≡ some t) × SignedIn setup t 1000 home actor
authenticate-SignedIn_example =
    authenticate-SignedIn memory setup (some "session") 1000 home actor is_signed_in
