-- ===== src/Connector/Lock/Exclusion.antt =====
-- Who holds the lock.
use promptlens_v.Prelude.{
  ℕ, ◌≡◌, refl, sym, ap, subst, Bool, true, false, List, [], ◌∷◌, arith, ℕ_eq, nat_eq_iff,
  Bool-cases, inl, inr, if◌then◌else◌,
}
use promptlens_v.Connector.Lock.{Process, Machine, Action, next_attempt, set_process, act, run}

abbrev pub is_holding : Process → Bool
is_holding Process.holding = true
is_holding _ = false

-- One process at most holds the lock, and none where there is no lock file.
pub record IsExclusive (m : Machine) : Type 0 where
  pub one : (i j : ℕ) → is_holding (m.process i) ≡ true → is_holding (m.process j) ≡ true → i ≡ j
  pub file : (i : ℕ) → is_holding (m.process i) ≡ true → m.locked ≡ true

moved-IsExclusive :
    (i : ℕ) (p : Process) (m : Machine)
    → is_holding p ≡ false
    → IsExclusive m
    → IsExclusive (record m { process = set_process i p m.process })
moved-IsExclusive i p m out inv = record {
  one = λ j k h g. ground (arith, nat_eq_iff j i, nat_eq_iff k i, inv.one j k);
  file = λ j h. ground (arith, nat_eq_iff j i, inv.file j);
}

taken-IsExclusive :
    (i : ℕ) (m : Machine)
    → m.locked ≡ false
    → IsExclusive m
    → IsExclusive (record { process = set_process i Process.holding m.process; locked = true })
taken-IsExclusive i m free inv = record {
  one = λ j k h g. ground (arith, nat_eq_iff j i, nat_eq_iff k i, inv.file j, inv.file k);
  file = λ j h. refl;
}

released-IsExclusive :
    (i : ℕ) (m : Machine)
    → m.process i ≡ Process.holding
    → IsExclusive m
    → IsExclusive (record { process = set_process i Process.done m.process; locked = false })
released-IsExclusive i m held inv =
    let alone : (j : ℕ) → is_holding (m.process j) ≡ true → j ≡ i =
      λ j h. inv.one j i h (ap is_holding held) in
    record {
      one = λ j k h g. ground (arith, nat_eq_iff j i, nat_eq_iff k i, inv.one j k);
      file = λ j h. absurd (ground (arith, nat_eq_iff j i, alone j));
    }

next_attempt_out : (attempt : ℕ) → is_holding (next_attempt attempt) ≡ false
unfolding next_attempt
next_attempt_out attempt = ground arith

-- An attempt that finds the file waits, one that finds none takes the lock.
act_locked :
    (i attempt : ℕ) (m : Machine)
    → m.locked ≡ true
    → act Action.attempt_open i (Process.trying attempt) m
      ≡ record m { process = set_process i (next_attempt attempt) m.process }
unfolding act
act_locked i attempt m locked =
    ap
      (λ b.
        if b
        then record m { process = set_process i (next_attempt attempt) m.process }
        else record { process = set_process i Process.holding m.process; locked = true })
      locked

act_free :
    (i attempt : ℕ) (m : Machine)
    → m.locked ≡ false
    → act Action.attempt_open i (Process.trying attempt) m
      ≡ record { process = set_process i Process.holding m.process; locked = true }
unfolding act
act_free i attempt m free =
    ap
      (λ b.
        if b
        then record m { process = set_process i (next_attempt attempt) m.process }
        else record { process = set_process i Process.holding m.process; locked = true })
      free

act-IsExclusive :
    (a : Action) (i : ℕ) (p : Process) (m : Machine)
    → m.process i ≡ p
    → IsExclusive m
    → IsExclusive (act a i p m)
unfolding act
act-IsExclusive Action.call i Process.idle m e inv =
    moved-IsExclusive i (Process.trying 0) m refl inv
act-IsExclusive Action.attempt_open i (Process.trying attempt) m e inv =
    elim (Bool-cases m.locked) [
      | inl locked ↦
          subst IsExclusive (sym (act_locked i attempt m locked))
            (moved-IsExclusive i (next_attempt attempt) m (next_attempt_out attempt) inv)
      | inr free ↦
          subst IsExclusive (sym (act_free i attempt m free)) (taken-IsExclusive i m free inv)
    ]
act-IsExclusive Action.finish i Process.holding m e inv = released-IsExclusive i m e inv
act-IsExclusive Action.kill i p m e inv = moved-IsExclusive i Process.killed m refl inv
act-IsExclusive a i p m e inv = inv

-- In whatever order processes call, try, finish and are killed, from a machine on which no process
-- holds the lock, two processes never hold it at once, and one that holds it has its file there.
pub run-IsExclusive :
    (actions : List (Action × ℕ)) (m : Machine)
    → ((i : ℕ) → is_holding (m.process i) ≡ false)
    → IsExclusive (run actions m)
unfolding run
run-IsExclusive actions m none_holds = keeps actions m (record {
  one = λ i j h g. absurd (ground (arith, none_holds i));
  file = λ i h. absurd (ground (arith, none_holds i));
})
  where
    keeps :
        (actions : List (Action × ℕ)) (m : Machine) → IsExclusive m → IsExclusive (run actions m)
    keeps [] m inv = inv
    keeps ((a, i) ∷ rest) m inv =
        keeps rest (act a i (m.process i) m) (act-IsExclusive a i (m.process i) m refl inv)

-- A lock file that no process holds stays, and no process holds the lock.
pub record IsStale (m : Machine) : Type 0 where
  pub there : m.locked ≡ true
  pub nobody : (i : ℕ) → is_holding (m.process i) ≡ false

moved-IsStale :
    (i : ℕ) (p : Process) (m : Machine)
    → is_holding p ≡ false
    → IsStale m
    → IsStale (record m { process = set_process i p m.process })
moved-IsStale i p m out inv = record {
  there = inv.there;
  nobody = λ j. ground (arith, nat_eq_iff j i, inv.nobody j);
}

act-IsStale :
    (a : Action) (i : ℕ) (p : Process) (m : Machine)
    → m.process i ≡ p
    → IsStale m
    → IsStale (act a i p m)
unfolding act
act-IsStale Action.call i Process.idle m e inv = moved-IsStale i (Process.trying 0) m refl inv
act-IsStale Action.attempt_open i (Process.trying attempt) m e inv =
    subst IsStale (sym (act_locked i attempt m inv.there))
      (moved-IsStale i (next_attempt attempt) m (next_attempt_out attempt) inv)
act-IsStale Action.finish i Process.holding m e inv =
    absurd (ground (arith, ap is_holding e, inv.nobody i))
act-IsStale Action.kill i p m e inv = moved-IsStale i Process.killed m refl inv
act-IsStale a i p m e inv = inv

run-IsStale : (actions : List (Action × ℕ)) (m : Machine) → IsStale m → IsStale (run actions m)
unfolding run
run-IsStale [] m inv = inv
run-IsStale ((a, i) ∷ rest) m inv =
    run-IsStale rest (act a i (m.process i) m) (act-IsStale a i (m.process i) m refl inv)

-- Once a process is killed while it holds the lock, no process ever holds it again, whatever the
-- processes do: the lock file stays, as nothing removes a lock file that is left behind.
pub killed_holder_locks_out :
    (m : Machine) (i : ℕ) (actions : List (Action × ℕ)) (j : ℕ)
    → IsExclusive m
    → m.process i ≡ Process.holding
    → let m' = run ((Action.kill, i) ∷ actions) m in
      (m'.locked ≡ true) × (is_holding (m'.process j) ≡ false)
unfolding run act
killed_holder_locks_out m i actions j inv held =
    let stale : IsStale (record m { process = set_process i Process.killed m.process }) = record {
      there = inv.file i (ap is_holding held);
      nobody = λ k. elim (Bool-cases (is_holding (m.process k))) [
        | inl h ↦ ground (arith, nat_eq_iff k i, inv.one k i h (ap is_holding held))
        | inr h ↦ ground (arith, nat_eq_iff k i)
      ];
    } in
    let last =
      run-IsStale actions (record m { process = set_process i Process.killed m.process }) stale in
    (last.there, last.nobody j)
