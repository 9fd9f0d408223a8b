-- ===== src/Analysis/Limits.antt =====
-- The limit on the calls of a minute.
use promptlens_v.Prelude.{
  ℕ, suc, String, Bool, true, false, none, some, List, [], ◌∷◌, ◌≡◌, refl, ◌≤◌, ◌+◌, ◌*◌, ◌/◌, ◌-◌,
  ◌&&◌, ◌⊎◌, inl, inr, arith, is_none, if◌then◌else◌, Bool-cases, nat_eq_iff, String_eq, ℕ_eq, sym,
  subst, ◌==◌,
}
use promptlens_v.Analysis.{
  AnalysisControlStore, AnalysisControlOptions, CounterKey, key_eq, enforce, count_call,
  record_provider_failure, bumped, timed, is_truthy,
}

-- A call of the controls: a request to be admitted, or a failure of the provider.
pub data Call : Type 0 where
  ask : (tenant_id : ℕ) (provider_name : String) (budget now : ℕ) → Call
  fail : (provider_name : String) (now : ℕ) → Call

key_of_eq : (a b : CounterKey) → key_eq a b ≡ true → a ≡ b
key_of_eq (CounterKey.rate t p m) (CounterKey.rate t' p' m') h =
    ground (arith, String_eq.same_iff p p', nat_eq_iff t t', nat_eq_iff m m')
key_of_eq (CounterKey.failures p) (CounterKey.failures p') h =
    ground (arith, String_eq.same_iff p p')
key_of_eq (CounterKey.rate t p m) (CounterKey.failures p') h = cc
key_of_eq (CounterKey.failures p) (CounterKey.rate t' p' m') h = cc

key_eq_same : (a : CounterKey) → key_eq a a ≡ true
key_eq_same (CounterKey.rate t p m) =
    ground (arith, String_eq.same_iff p p, nat_eq_iff t t, nat_eq_iff m m)
key_eq_same (CounterKey.failures p) = ground (arith, String_eq.same_iff p p)

module _ {K : Type 0} (store : AnalysisControlStore K) (options : AnalysisControlOptions) where
  abbrev pub after : Call → K → K
  after (Call.ask t p b now) k = (enforce store options t p b now k).1
  after (Call.fail p now) k = record_provider_failure store options p now k

  -- The call is admitted, and counts for the key.
  abbrev pub admitted : CounterKey → Call → K → Bool
  admitted key (Call.ask t p b now) k =
      key_eq key (CounterKey.rate t p (now / 60000))
      && is_none (enforce store options t p b now k).0
  admitted key (Call.fail p now) k = false

  abbrev pub admissions : CounterKey → List Call → K → ℕ
  admissions key [] k = 0
  admissions key (c ∷ cs) k =
      let rest = admissions key cs (after c k) in if admitted key c k then suc rest else rest

  -- The counter of a minute stands at `v` and outlives the minute, or is not there yet.
  data Held (key : CounterKey) (m : ℕ) : ℕ → K → Type 0 where
    unset : {k : K} → store.counter key k ≡ none → Held key m 0 k
    stands :
        {k : K} (v d : ℕ)
        → store.counter key k ≡ some (record { value = v; deadline = some d })
        → (m + 1) * 60000 ≤ d
        → Held key m v k

  incr_same :
      (now : ℕ) (key : CounterKey) (k : K)
      → store.counter key (store.incr now key k).1 ≡ bumped now (store.counter key k)
  incr_same now key k = rw (store.incr_counter, key_eq_same key)

  expire_same :
      (now seconds : ℕ) (key : CounterKey) (k : K)
      → store.counter key (store.expire now key seconds k) ≡ timed now seconds (store.counter key k)
  expire_same now seconds key k = rw (store.expire_counter, key_eq_same key)

  counted_first :
      (t : ℕ) (p : String) (now : ℕ) (k : K)
      → store.counter (CounterKey.rate t p (now / 60000)) k ≡ none
      → ((count_call store options t p now k).0 ≡ 1)
        × (store.counter (CounterKey.rate t p (now / 60000)) (count_call store options t p now k).1
            ≡ some (record { value = 1; deadline = some (now + 120000) }))
  counted_first t p now k e = ground (
    arith,
    store.incr_value now (CounterKey.rate t p (now / 60000)) k,
    incr_same now (CounterKey.rate t p (now / 60000)) k,
    expire_same now 120 (CounterKey.rate t p (now / 60000))
        (store.incr now (CounterKey.rate t p (now / 60000)) k).1,
  )

  counted_next :
      (t : ℕ) (p : String) (now v d : ℕ) (k : K)
      → store.counter (CounterKey.rate t p (now / 60000)) k
        ≡ some (record { value = v; deadline = some d })
      → (now / 60000 + 1) * 60000 ≤ d
      → ((count_call store options t p now k).0 ≡ suc v)
        × Held
            (CounterKey.rate t p (now / 60000))
            (now / 60000)
            (suc v)
            (count_call store options t p now k).1
  counted_next t p now v d k e h = elim (Bool-cases (v == 0)) [
    | inl z ↦ (
      ground (arith, store.incr_value now key k),
      stands (suc v) (now + 120000)
          (ground (
            arith,
            store.incr_value now key k,
            incr_same now key k,
            expire_same now 120 key (store.incr now key k).1,
          ))
          (omega arith),
    )
    | inr nz ↦ (
      ground (arith, store.incr_value now key k),
      stands (suc v) d (ground (arith, store.incr_value now key k, incr_same now key k)) h,
    )
  ]
    where
      key : CounterKey
      key = CounterKey.rate t p (now / 60000)

  counted_call :
      (t : ℕ) (p : String) (now v : ℕ) (k : K)
      → Held (CounterKey.rate t p (now / 60000)) (now / 60000) v k
      → ((count_call store options t p now k).0 ≡ suc v)
        × Held
            (CounterKey.rate t p (now / 60000))
            (now / 60000)
            (suc v)
            (count_call store options t p now k).1
  counted_call t p now v k (unset e) =
      let r = counted_first t p now k e in (r.0, stands 1 (now + 120000) r.1 (omega arith))
  counted_call t p now v k (stands v' d e h) = counted_next t p now v d k e h

  counted_other :
      (key : CounterKey) (t : ℕ) (p : String) (now : ℕ) (k : K)
      → key_eq key (CounterKey.rate t p (now / 60000)) ≡ false
      → store.counter key (count_call store options t p now k).1 ≡ store.counter key k
  counted_other key t p now k other = ground (
    arith,
    store.incr_counter now (CounterKey.rate t p (now / 60000)) key k,
    store.expire_counter now 120 (CounterKey.rate t p (now / 60000)) key
        (store.incr now (CounterKey.rate t p (now / 60000)) k).1,
  )

  failure_other :
      (t m : ℕ) (p p' : String) (now : ℕ) (k : K)
      → store.counter (CounterKey.rate t p m) (record_provider_failure store options p' now k)
        ≡ store.counter (CounterKey.rate t p m) k
  unfolding record_provider_failure
  failure_other t m p p' now k = ground (
    arith,
    store.incr_counter now (CounterKey.failures p') (CounterKey.rate t p m) k,
    store.expire_counter now 60 (CounterKey.failures p') (CounterKey.rate t p m)
        (store.incr now (CounterKey.failures p') k).1,
    store.set_counter now 60 p' "open" (CounterKey.rate t p m)
        (store.incr now (CounterKey.failures p') k).1,
    store.set_counter now 60 p' "open" (CounterKey.rate t p m) (
        store.expire now (CounterKey.failures p') 60 (store.incr now (CounterKey.failures p') k).1),
  )

  Held-moved :
      (key : CounterKey) (m v : ℕ) (k k' : K)
      → store.counter key k' ≡ store.counter key k
      → Held key m v k
      → Held key m v k'
  Held-moved key m v k k' e (unset u) = unset (ground arith)
  Held-moved key m v k k' e (stands v' d u h) = stands v d (ground arith) h

  -- One call leaves the count, or raises it; one that is admitted raises it within the limit.
  abbrev Advance : CounterKey → ℕ → ℕ → Call → K → Type 0
  Advance key m v c k =
      (Held key m v (after c k) × (admitted key c k ≡ false))
      ⊎ (Held key m (suc v) (after c k)
          × (admitted key c k ≡ true → suc v ≤ options.requests_per_minute))

  enforce_closed :
      (t : ℕ) (p : String) (budget now : ℕ) (k : K)
      → is_truthy (store.get now p k) ≡ false
      → ((enforce store options t p budget now k).1 ≡ (count_call store options t p now k).1)
        × (is_none (enforce store options t p budget now k).0 ≡ true
            → (count_call store options t p now k).0 ≤ options.requests_per_minute)
  unfolding enforce
  enforce_closed t p budget now k closed = (ground arith, λ h. ground arith)

  enforce_open :
      (t : ℕ) (p : String) (budget now : ℕ) (k : K)
      → is_truthy (store.get now p k) ≡ true
      → ((enforce store options t p budget now k).1 ≡ k)
        × (is_none (enforce store options t p budget now k).0 ≡ false)
  unfolding enforce
  enforce_open t p budget now k opened = (ground arith, ground arith)

  asked :
      (t : ℕ) (p : String) (budget now v : ℕ) (k : K)
      → Held (CounterKey.rate t p (now / 60000)) (now / 60000) v k
      → Advance (CounterKey.rate t p (now / 60000)) (now / 60000) v (Call.ask t p budget now) k
  asked t p budget now v k held = elim (Bool-cases (is_truthy (store.get now p k))) [
    | inl opened ↦
        let r = enforce_open t p budget now k opened in
        inl (subst (Held key (now / 60000) v) (sym r.0) held, ground (arith, r.1))
    | inr closed ↦
        let r = enforce_closed t p budget now k closed in
        let c = counted_call t p now v k held in
        inr (
          subst (Held key (now / 60000) (suc v)) (sym r.0) c.1,
          λ h. subst (λ n. n ≤ options.requests_per_minute) c.0 (r.1 (ground arith)),
        )
  ]
    where
      key : CounterKey
      key = CounterKey.rate t p (now / 60000)

  asked_other :
      (key : CounterKey) (m t : ℕ) (p : String) (budget now v : ℕ) (k : K)
      → key_eq key (CounterKey.rate t p (now / 60000)) ≡ false
      → Held key m v k
      → Advance key m v (Call.ask t p budget now) k
  unfolding enforce
  asked_other key m t p budget now v k other held =
      inl (Held-moved key m v k _ same held, ground arith)
    where
      same : store.counter key (enforce store options t p budget now k).1 ≡ store.counter key k
      same = ground (arith, counted_other key t p now k)

  advance :
      (t m : ℕ) (p : String) (c : Call) (v : ℕ) (k : K)
      → Held (CounterKey.rate t p m) m v k
      → Advance (CounterKey.rate t p m) m v c k
  advance t m p (Call.fail p' now) v k held =
      inl (Held-moved _ m v k _ (failure_other t m p p' now k) held, refl)
  advance t m p (Call.ask t' p' budget now) v k held =
      elim (Bool-cases (key_eq (CounterKey.rate t p m) (CounterKey.rate t' p' (now / 60000)))) [
        | inr other ↦ asked_other _ m t' p' budget now v k other held
        | inl same ↦
            let e = key_of_eq (CounterKey.rate t p m) (CounterKey.rate t' p' (now / 60000)) same in
            let em : m ≡ now / 60000 = ground arith in
            subst (λ (x : CounterKey × ℕ). Advance x.0 x.1 v (Call.ask t' p' budget now) k)
              (λ i. (sym e i, sym em i))
              (asked t' p' budget now v k
                (subst (λ (x : CounterKey × ℕ). Held x.0 x.1 v k) (λ i. (e i, em i)) held))
      ]

  admissions_from :
      (t m : ℕ) (p : String) (cs : List Call) (v : ℕ) (k : K)
      → Held (CounterKey.rate t p m) m v k
      → admissions (CounterKey.rate t p m) cs k ≤ options.requests_per_minute - v
  admissions_from t m p [] v k held = omega arith
  admissions_from t m p (c ∷ cs) v k held = elim (advance t m p c v k held) [
    | inl (still, refused) ↦ ground (arith, admissions_from t m p cs v (after c k) still)
    | inr (raised, within) ↦ ground (arith, admissions_from t m p cs (suc v) (after c k) raised)
  ]

  -- Over any sequence of calls, of any workspaces and providers, at any times and with failures
  -- among them, at most `requests_per_minute` calls of one workspace, provider and minute are
  -- admitted, where the counter of that minute is not there at the start.
  pub admissions_bounded :
      (t m : ℕ) (p : String) (cs : List Call) (k : K)
      → store.counter (CounterKey.rate t p m) k ≡ none
      → admissions (CounterKey.rate t p m) cs k ≤ options.requests_per_minute
  admissions_bounded t m p cs k e = ground (arith, admissions_from t m p cs 0 k (unset e))
