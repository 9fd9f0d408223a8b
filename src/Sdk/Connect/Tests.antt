-- ===== src/Sdk/Connect/Tests.antt =====
-- Examples for the device flow of a connector.
use promptlens_v.Prelude.{ℕ, ◌≡◌, ◌⊎◌, ap, ◌≤◌, ◌+◌, true, none, some, [], arith, is_some}
use promptlens_v.Store.{Error, Result, ok, err}
use promptlens_v.Sdk.{answered}
use promptlens_v.Sdk.Sample.{Simulation, simulated}
use promptlens_v.Sdk.Connect.{
  DeviceAuthorizationStart, BeginAuthorizationOptions, Flow, started, begun_with,
  begin_authorization, connect,
}
use promptlens_v.Sdk.Connect.Deadline.{connect_ends}

abbrev flow : Flow simulated
flow = record {
  random_base64url = λ w. ("v", w);
  sha256_base64url = λ t. t;
  post_authorization = λ input challenge w. (
    answered 201 (record {
      device_code = "d";
      user_code = "ABCDEFGH";
      verification_uri = "http://localhost:3000/connect";
      expires_in = 600;
      interval = 5;
    }),
    w,
  );
  sleep = λ ms w. record w { time = w.time + ms };
  sleep_lasts = λ ms w. omega arith;
  clock_later = λ w. omega arith;
  post_token_later = λ code verifier w. omega arith;
}

abbrev online : Simulation
online = record { tokens = none; queue = []; time = 1000; status = 200 }

abbrev input : BeginAuthorizationOptions
input = record { platform = "codex"; display_name = "Codex" }

interval_of : Result DeviceAuthorizationStart → ℕ
interval_of (ok start) = start.interval
interval_of (err e) = 0

five_seconds :
    (start : DeviceAuthorizationStart)
    → (begin_authorization simulated flow input online).0 ≡ ok start
    → 1 ≤ start.interval
unfolding begin_authorization begun_with started interval_of
five_seconds start e = omega (arith, ap interval_of e)

connect_ends_example :
    (r : Result (Unit {0}) × Simulation) × (connect simulated flow input online ≡ some r)
    × (((x : Error) × (r.0 ≡ err x)) ⊎ ((r.0 ≡ ok tt) × (is_some r.1.tokens ≡ true)))
connect_ends_example = connect_ends simulated flow input online five_seconds
