-- ===== src/Connector/Lock/Tests.antt =====
-- Examples for the lock.
use promptlens_v.Prelude.{ℕ, ◌≡◌, refl, true, false, List, [], ◌∷◌}
use promptlens_v.Connector.Lock.{Process, Machine, Action, act, run}
use promptlens_v.Connector.Lock.Exclusion.{
  is_holding, IsExclusive, run-IsExclusive, killed_holder_locks_out,
}

abbrev quiet : Machine
quiet = record { process = λ i. Process.idle; locked = false }

abbrev two_calls : List (Action × ℕ)
two_calls =
    (Action.call, 1) ∷ (Action.call, 2) ∷ (Action.attempt_open, 1) ∷ (Action.attempt_open, 2) ∷ []

run-IsExclusive_example : IsExclusive (run two_calls quiet)
run-IsExclusive_example = run-IsExclusive two_calls quiet (λ i. refl)

first_holds : (run two_calls quiet).process 1 ≡ Process.holding
unfolding run act
first_holds = refl

killed_holder_locks_out_example :
    let m' = run ((Action.kill, 1) ∷ (Action.attempt_open, 2) ∷ []) (run two_calls quiet) in
    (m'.locked ≡ true) × (is_holding (m'.process 2) ≡ false)
killed_holder_locks_out_example =
    killed_holder_locks_out (run two_calls quiet) 1 ((Action.attempt_open, 2) ∷ []) 2
      (run-IsExclusive two_calls quiet (λ i. refl)) first_holds
