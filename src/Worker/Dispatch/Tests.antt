-- ===== src/Worker/Dispatch/Tests.antt =====
-- Examples for the dispatch of the outbox.
use promptlens_v.Prelude.{
  ℕ, ◌≡◌, refl, ◌⊎◌, inl, none, List, [], ◌∷◌, true, arith, In, any, ◌==◌, ℕ_eq, nat_eq_iff,
}
use promptlens_v.Store.{ok}
use promptlens_v.Store.Memory.{memory}
use promptlens_v.Schema.{OutboxEvent}
use promptlens_v.Worker.Dispatch.{Queue, dispatch_outbox, dispatch_events, published}
use promptlens_v.Worker.Dispatch.Kept.{dispatch_keeps}

-- A queue that keeps the ids of its jobs.
abbrev ids : Queue (List ℕ)
ids = record {
  add = λ n job q. ok (n ∷ q);
  holds = λ n q. any (λ m. m == n) q;
  add_holds = λ n job q q' e. ground (arith, nat_eq_iff n n);
  add_keeps = λ n m job q q' e h. ground arith;
}

abbrev an_event : OutboxEvent
an_event = record {
  id = 9;
  tenant_id = 1;
  aggregate_type = "prompt";
  aggregate_id = 3;
  event_type = "PromptCreated";
  event_version = 1;
  prompt_id = 3;
  analysis_id = 7;
  occurred_at = 1000;
  published_at = none;
  attempts = 0;
}

is_dispatched :
    In (published 2000 an_event) (dispatch_outbox memory ids 2000 (an_event ∷ []) []).1.0
unfolding dispatch_outbox dispatch_events
is_dispatched = inl refl

dispatch_keeps_example :
    In (published 2000 an_event) (an_event ∷ [])
    ⊎ (ids.holds 9 (dispatch_outbox memory ids 2000 (an_event ∷ []) []).1.1 ≡ true)
dispatch_keeps_example =
    dispatch_keeps memory ids 2000 (an_event ∷ []) [] (published 2000 an_event) is_dispatched refl
