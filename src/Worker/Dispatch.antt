-- ===== src/Worker/Dispatch.antt =====
-- apps/worker/src/main.ts, `dispatchOutbox`: the events of the outbox become jobs of the queue. The
-- queue (BullMQ) is a parameter.
pub mod Kept
mod Tests
use promptlens_v.Prelude.{
  ℕ, ◌≡◌, Bool, true, Option, none, some, List, [], ◌∷◌, ◌+◌, ◌&&◌, ◌==◌, ℕ_eq, String_eq, is_none,
}
use promptlens_v.Store.{Prisma, Result, ok, err}
use promptlens_v.Schema.{OutboxEvent}
use promptlens_v.Worker.{AnalysisJobData}

-- `queue.add`: the queue of jobs, where a job with the id of one that is there is ignored.
pub record Queue (Q : Type 0) : Type 0 where
  pub add : (job_id : ℕ) → AnalysisJobData → Q → Result Q
  pub holds : (job_id : ℕ) → Q → Bool
  -- A job that was accepted is held, and accepting one keeps those that are held.
  pub add_holds :
      (n : ℕ) (job : AnalysisJobData) (q q' : Q) → add n job q ≡ ok q' → holds n q' ≡ true
  pub add_keeps :
      (n m : ℕ) (job : AnalysisJobData) (q q' : Q)
      → add n job q ≡ ok q'
      → holds m q ≡ true
      → holds m q' ≡ true

abbrev pub undispatched : OutboxEvent → Bool
undispatched event = is_none event.published_at && event.event_type == "PromptCreated"

abbrev pub published : (at : ℕ) → OutboxEvent → OutboxEvent
published at event = record event { published_at = some at; attempts = event.attempts + 1 }

abbrev pub job_data : OutboxEvent → AnalysisJobData
job_data event = record {
  tenant_id = event.tenant_id;
  prompt_id = event.prompt_id;
  analysis_id = event.analysis_id;
}

module _ (db : Prisma) {Q : Type 0} (queue : Queue Q) where
  -- `outboxEvent.update`, a statement with no transaction of its own.
  abbrev pub publish : (at : ℕ) → OutboxEvent → List OutboxEvent → Result (List OutboxEvent)
  publish at event rows = db.update (λ b. b.id == event.id) (published at) rows

  -- One step for each event; the first error ends the loop and keeps what was done.
  pub dispatch_events :
      (at : ℕ) (events rows : List OutboxEvent) → Q → Result (Unit {0}) × (List OutboxEvent × Q)
  dispatch_events at [] rows q = (ok tt, (rows, q))
  dispatch_events at (event ∷ events) rows q = elim (queue.add event.id (job_data event) q) [
    | err e ↦ (err e, (rows, q))
    | ok q' ↦ elim (publish at event rows) [
      | err e ↦ (err e, (rows, q'))
      | ok rows' ↦ dispatch_events at events rows' q'
    ]
  ]

  pub dispatch_outbox : (at : ℕ) → List OutboxEvent → Q → Result (Unit {0}) × (List OutboxEvent × Q)
  dispatch_outbox at rows q =
      dispatch_events at (db.find_page undispatched (λ e. e.occurred_at) 50 rows) rows q
