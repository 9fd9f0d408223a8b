-- ===== src/Worker/Dispatch/Kept.antt =====
-- The dispatch of the outbox: no event is marked published whose job the queue does not hold.
use promptlens_v.Prelude.{
  ℕ, ◌≡◌, sym, ap, ◌∙◌, true, List, [], ◌∷◌, arith, inl, inr, ◌⊎◌, change, In, In-change, ◌==◌,
  ℕ_eq, nat_eq_iff, is_some, Bool-cases, if◌then◌else◌,
}
use promptlens_v.Store.{Prisma, Result, Result-cases, ok}
use promptlens_v.Schema.{OutboxEvent}
use promptlens_v.Worker.Dispatch.{
  Queue, undispatched, published, job_data, publish, dispatch_events, dispatch_outbox,
}

module _ (db : Prisma) {Q : Type 0} (queue : Queue Q) where
  -- Every event of the table that is marked published was so in the first table, or its job is held.
  abbrev Kept : (rows0 rows : List OutboxEvent) → Q → Type 0
  Kept rows0 rows q =
      (y : OutboxEvent)
      → In y rows
      → is_some y.published_at ≡ true
      → In y rows0 ⊎ (queue.holds y.id q ≡ true)

  publish_inv :
      (at : ℕ) (event : OutboxEvent) (rows rows' : List OutboxEvent)
      → publish db queue at event rows ≡ ok rows'
      → rows' ≡ change (λ b. b.id == event.id) (published at) rows
  publish_inv at event rows rows' h =
      ground (arith, db.update_lem (λ b. b.id == event.id) (published at) rows)

  published_step :
      (at : ℕ) (event x y : OutboxEvent)
      → (if x.id == event.id then published at x else x) ≡ y
      → (y.id ≡ event.id) ⊎ (x ≡ y)
  published_step at event x y e = elim (Bool-cases (x.id == event.id)) [
    | inl same ↦ inl (ground (arith, nat_eq_iff x.id event.id))
    | inr other ↦ inr (ground arith)
  ]

  Kept-step :
      (at : ℕ) (event : OutboxEvent) (rows0 rows rows' : List OutboxEvent) (q q' : Q)
      → Kept rows0 rows q
      → queue.add event.id (job_data event) q ≡ ok q'
      → publish db queue at event rows ≡ ok rows'
      → Kept rows0 rows' q'
  Kept-step at event rows0 rows rows' q q' kept added stored y i marked =
      let (x, j, e) =
        In-change (λ b. b.id == event.id) (published at) y rows
          (rw (sym (publish_inv at event rows rows' stored)) i) in
      elim (published_step at event x y e) [
        | inl same ↦
            inr (
              ap (λ n. queue.holds n q') same
              ∙ queue.add_holds event.id (job_data event) q q' added)
        | inr e' ↦ elim (kept x j (ap (λ (z : OutboxEvent). is_some z.published_at) e' ∙ marked)) [
          | inl before ↦ inl (rw (sym e') before)
          | inr held ↦ inr (
              ap (λ (z : OutboxEvent). queue.holds z.id q') (sym e')
              ∙ queue.add_keeps event.id x.id (job_data event) q q' added held)
        ]
      ]

  Kept-queued :
      (event : OutboxEvent) (rows0 rows : List OutboxEvent) (q q' : Q)
      → Kept rows0 rows q
      → queue.add event.id (job_data event) q ≡ ok q'
      → Kept rows0 rows q'
  Kept-queued event rows0 rows q q' kept added y i marked = elim (kept y i marked) [
    | inl before ↦ inl before
    | inr held ↦ inr (queue.add_keeps event.id y.id (job_data event) q q' added held)
  ]

  abbrev Goal : (rows0 : List OutboxEvent) → Result (Unit {0}) × (List OutboxEvent × Q) → Type 0
  Goal rows0 r = Kept rows0 r.1.0 r.1.1

  dispatch_events-Kept :
      (at : ℕ) (events rows0 rows : List OutboxEvent) (q : Q)
      → Kept rows0 rows q
      → Goal rows0 (dispatch_events db queue at events rows q)
  unfolding dispatch_events
  dispatch_events-Kept at [] rows0 rows q kept = kept
  dispatch_events-Kept at (event ∷ events) rows0 rows q kept =
      elim (Result-cases (queue.add event.id (job_data event) q)) [
        | inr (e, refused) ↦ rw (dispatch_events, refused) kept
        | inl (q', added) ↦ elim (Result-cases (publish db queue at event rows)) [
          | inr (e, gone) ↦
              rw (dispatch_events, added, gone) (Kept-queued event rows0 rows q q' kept added)
          | inl (rows', stored) ↦
              rw (dispatch_events, added, stored)
                (dispatch_events-Kept at events rows0 rows' q'
                  (Kept-step at event rows0 rows rows' q q' kept added stored))
        ]
      ]

  -- A round of the dispatch marks no event published whose job was not accepted: an event that is
  -- published afterwards was so before, or the queue holds the job with its id. This is so also where
  -- the queue or the database fails in the middle of the round.
  pub dispatch_keeps :
      (at : ℕ) (rows : List OutboxEvent) (q : Q) (y : OutboxEvent)
      → let r = dispatch_outbox db queue at rows q in
        In y r.1.0 → is_some y.published_at ≡ true → In y rows ⊎ (queue.holds y.id r.1.1 ≡ true)
  unfolding dispatch_outbox
  dispatch_keeps at rows q =
      dispatch_events-Kept at (db.find_page undispatched (λ e. e.occurred_at) 50 rows) rows rows q
        (λ y i h. inl i)
