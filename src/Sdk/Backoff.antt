-- ===== src/Sdk/Backoff.antt =====
-- The delays of the exponential backoff.
use promptlens_v.Prelude.{ℕ, ◌≡◌, ◌≤◌, ◌<◌, ◌+◌, ◌*◌, ◌^◌, min, arith, suc, zero, refl}
use native.Mathlib.Decide.{dec_lt}
use promptlens_v.Sdk.{backoff_ms, jittered, ticks_per_ms, Environment, postponed, QueuedPrompt}

pow_pos : (n : ℕ) → 1 ≤ 2 ^ n
pow_pos zero = omega arith
pow_pos (suc n) = grind (arith, pow_pos n)

backoff_ms_range : (n : ℕ) → (1000 ≤ backoff_ms n) × (backoff_ms n ≤ 3_600_000)
unfolding backoff_ms
backoff_ms_range n = omega (arith, pow_pos (min n 12))

two_le_pow : (m : ℕ) → 1 ≤ m → 2 ≤ 2 ^ m
two_le_pow zero h = absurd (omega arith)
two_le_pow (suc m) h = grind (arith, pow_pos m)

backoff_ms_first : (n : ℕ) → 2000 ≤ backoff_ms (n + 1)
unfolding backoff_ms
backoff_ms_first n = omega (arith, two_le_pow (min (n + 1) 12) (omega arith))

jittered_range :
    (e r : ℕ) → r < 2 ^ 52 → (e * (4 * 2 ^ 52) ≤ jittered e r) × (jittered e r ≤ e * (6 * 2 ^ 52))
unfolding jittered
jittered_range e r h = (grind arith, grind arith)

doubled : (m n : ℕ) → m ≡ suc n → 2 ^ m ≡ 2 * 2 ^ n
doubled m n e = rw e (grind arith)

-- Each delay doubles the one before, up to an hour.
backoff_doubles : (n : ℕ) → backoff_ms (n + 1) ≡ min 3_600_000 (2 * backoff_ms n)
unfolding backoff_ms
backoff_doubles n = elim (dec_lt n 12) [
  | yes h ↦ omega (arith, doubled (min (n + 1) 12) (min n 12) (omega arith))
  | no h ↦
      let e : min n 12 ≡ 12 = omega arith in
      let e' : min (n + 1) 12 ≡ 12 = omega arith in rw (e, e') refl
]

-- A failed attempt keeps the prompt, counts one more attempt and sets the next attempt between 80%
-- and 120% of the backoff after the time read: the backoff is 2 s at least and doubles from attempt
-- to attempt up to an hour.
pub postponed_bounds :
    (env : Environment) (item : QueuedPrompt) (w : env.World)
    → let p = (postponed env item w).0 in
      let e = backoff_ms p.attempts in
      let base = (env.clock w).0 * ticks_per_ms in
      (p.prompt ≡ item.prompt)
      × (p.attempts ≡ item.attempts + 1)
      × (base + e * (4 * 2 ^ 52) ≤ p.next_attempt_at)
      × (p.next_attempt_at ≤ base + e * (6 * 2 ^ 52))
      × (2000 ≤ e)
      × (e ≤ 3_600_000)
      × (backoff_ms (p.attempts + 1) ≡ min 3_600_000 (2 * e))
unfolding postponed
postponed_bounds env item w =
    let n = item.attempts + 1 in
    let r = env.random (env.clock w).1 in
    let (low, high) = jittered_range (backoff_ms n) r.0 (env.random_lt _) in
    (
      refl,
      refl,
      omega (arith, low),
      omega (arith, high),
      backoff_ms_first item.attempts,
      (backoff_ms_range n).1,
      backoff_doubles n,
    )
