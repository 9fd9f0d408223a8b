-- ===== src/Sdk/Connect/Deadline.antt =====
-- The loop of `connect` ends.
use promptlens_v.Prelude.{
  ℕ, ◌≡◌, refl, ap, ◌∙◌, String, Bool, true, false, Option, some, ◌≤◌, ◌+◌, ◌*◌, zero, suc, ltb,
  arith, ◌&&◌, ◌==◌, ℕ_eq, ◌⊎◌, inl, inr, Bool-cases, is_some,
}
use promptlens_v.Store.{Error, Result, ok, err, failure, Result-cases}
use promptlens_v.Sdk.{
  Environment, Response, TokenResponse, received, is_ok, unreachable, answered, poll_authorization,
  token_reply, store_tokens, waits,
}
use promptlens_v.Sdk.Connect.{
  DeviceAuthorizationStart, BeginAuthorizationOptions, Flow, poll_until, connect,
  begin_authorization,
}

module _ (env : Environment) where
  reply_waits :
      (x : Response (Option String × TokenResponse)) (w : env.World)
      → (token_reply env x w).0 ≡ ok false
      → (token_reply env x w).1 ≡ w
  unfolding token_reply store_tokens
  reply_waits unreachable w h = refl
  reply_waits (answered status (code, payload)) w h =
      elim (Bool-cases (status == 400 && waits env code)) [
        | inl waiting ↦ rw (token_reply, waiting) refl
        | inr other ↦ elim (Bool-cases (is_ok status)) [
          | inl fine ↦ absurd (ground arith)
          | inr bad ↦ rw (token_reply, other, bad) refl
        ]
      ]

  reply_stores :
      (x : Response (Option String × TokenResponse)) (w : env.World)
      → (token_reply env x w).0 ≡ ok true
      → is_some (env.load_tokens (token_reply env x w).1) ≡ true
  unfolding token_reply store_tokens
  reply_stores unreachable w h = absurd (ground arith)
  reply_stores (answered status (code, payload)) w h =
      elim (Bool-cases (status == 400 && waits env code)) [
        | inl waiting ↦ absurd (ground arith)
        | inr other ↦ elim (Bool-cases (is_ok status)) [
          | inr bad ↦ absurd (ground arith)
          | inl fine ↦
              ground
                (arith, env.load-save_tokens (received env payload (env.clock w).0) (env.clock w).1)
        ]
      ]

module _ (env : Environment) (flow : Flow env) (start : DeviceAuthorizationStart) where
  -- What a poll of the loop meets and leaves.
  polled : env.World → Result Bool × env.World
  polled w =
      poll_authorization env start.device_code start.code_verifier
        (flow.sleep (start.interval * 1000) (env.clock w).1)

  polled_later :
      (w : env.World)
      → 1 ≤ start.interval
      → (polled w).0 ≡ ok false
      → (env.clock w).0 + 1000 ≤ (env.clock (polled w).1).0
  unfolding polled poll_authorization
  polled_later w whole h =
      let w1 = flow.sleep (start.interval * 1000) (env.clock w).1 in
      let r = env.post_token start.device_code start.code_verifier w1 in
      omega (
        arith,
        whole,
        flow.clock_later w,
        flow.sleep_lasts (start.interval * 1000) (env.clock w).1,
        flow.post_token_later start.device_code start.code_verifier w1,
        ap (λ z. (env.clock z).0) (reply_waits env r.0 r.1 h),
      )

  polled_stores :
      (w : env.World) → (polled w).0 ≡ ok true → is_some (env.load_tokens (polled w).1) ≡ true
  unfolding polled poll_authorization
  polled_stores w h =
      let w1 = flow.sleep (start.interval * 1000) (env.clock w).1 in
      let r = env.post_token start.device_code start.code_verifier w1 in reply_stores env r.0 r.1 h

  -- The loop is over; where it succeeded, the connector has tokens.
  abbrev pub Ends : Option (Result (Unit {0}) × env.World) → Type 0
  Ends o =
      (r : Result (Unit {0}) × env.World) × (o ≡ some r)
      × (((x : Error) × (r.0 ≡ err x)) ⊎ ((r.0 ≡ ok tt) × (is_some (env.load_tokens r.1) ≡ true)))

  module _ (fuel deadline : ℕ) (w : env.World) where
    round_expired :
        ltb (env.clock w).0 deadline ≡ false
        → poll_until env flow (suc fuel) deadline start w
          ≡ some (err (failure "Device authorization expired."), (env.clock w).1)
    unfolding poll_until
    round_expired h = rw (poll_until, h) refl

    round_done :
        ltb (env.clock w).0 deadline ≡ true
        → (polled w).0 ≡ ok true
        → poll_until env flow (suc fuel) deadline start w ≡ some (ok tt, (polled w).1)
    unfolding poll_until polled
    round_done h e = rw (poll_until, h, e) refl

    round_waits :
        ltb (env.clock w).0 deadline ≡ true
        → (polled w).0 ≡ ok false
        → poll_until env flow (suc fuel) deadline start w
          ≡ poll_until env flow fuel deadline start (polled w).1
    unfolding poll_until polled
    round_waits h e = rw (poll_until, h, e) refl

    round_fails :
        (x : Error)
        → ltb (env.clock w).0 deadline ≡ true
        → (polled w).0 ≡ err x
        → poll_until env flow (suc fuel) deadline start w ≡ some (err x, (polled w).1)
    unfolding poll_until polled
    round_fails x h e = rw (poll_until, h, e) refl

  -- A round ends the loop, or leaves it to the rounds a second or more later.
  poll_round :
      (fuel deadline : ℕ) (w : env.World)
      → 1 ≤ start.interval
      → ((w' : env.World)
          → ltb (env.clock w).0 deadline ≡ true
          → (env.clock w).0 + 1000 ≤ (env.clock w').0
          → Ends (poll_until env flow fuel deadline start w'))
      → Ends (poll_until env flow (suc fuel) deadline start w)
  poll_round fuel deadline w whole rest = elim (Bool-cases (ltb (env.clock w).0 deadline)) [
    | inr over ↦ (_, round_expired fuel deadline w over, inl (_, refl))
    | inl early ↦ elim (Result-cases (polled w).0) [
      | inr (x, e) ↦ (_, round_fails fuel deadline w x early e, inl (x, refl))
      | inl (true, e) ↦ (_, round_done fuel deadline w early e, inr (refl, polled_stores w e))
      | inl (false, e) ↦
          let (r, f, stored) = rest (polled w).1 early (polled_later w whole e) in
          (r, round_waits fuel deadline w early e ∙ f, stored)
    ]
  ]

  poll_until_enough :
      (fuel deadline : ℕ) (w : env.World)
      → 1 ≤ start.interval
      → deadline ≤ (env.clock w).0 + 1000 * fuel
      → Ends (poll_until env flow (suc fuel) deadline start w)
  poll_until_enough zero deadline w whole enough =
      poll_round zero deadline w whole (λ w' early later. absurd (ground arith))
  poll_until_enough (suc fuel) deadline w whole enough =
      poll_round (suc fuel) deadline w whole
        (λ w' early later. poll_until_enough fuel deadline w' whole (omega (arith, later, enough)))

-- Where the server asks for polls a second apart or more, `connect` ends within the rounds that it is
-- given here, one for each second that the authorization lives and one more: the connector then has
-- tokens, or the call ends with an error.
pub connect_ends :
    (env : Environment) (flow : Flow env) (input : BeginAuthorizationOptions) (w : env.World)
    → ((start : DeviceAuthorizationStart)
        → (begin_authorization env flow input w).0 ≡ ok start
        → 1 ≤ start.interval)
    → (r : Result (Unit {0}) × env.World) × (connect env flow input w ≡ some r)
      × (((x : Error) × (r.0 ≡ err x)) ⊎ ((r.0 ≡ ok tt) × (is_some (env.load_tokens r.1) ≡ true)))
unfolding connect
connect_ends env flow input w apart = elim (Result-cases (begin_authorization env flow input w).0) [
  | inr (x, e) ↦
      ((err x, (begin_authorization env flow input w).1), rw (connect, e) refl, inl (x, refl))
  | inl (start, e) ↦
      let w1 = (begin_authorization env flow input w).1 in
      let t = env.clock w1 in
      let (r, f, stored) =
        poll_until_enough env flow start start.expires_in (t.0 + start.expires_in * 1000) t.1
          (apart start e) (omega (arith, flow.clock_later w1)) in
      (r, rw (connect, e) f, stored)
]
