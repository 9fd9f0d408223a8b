-- ===== src/Sdk/Queue.antt =====
-- The queue of captured prompts: one entry for each event.
use promptlens_v.Prelude.{
  ◌≡◌, ◌≢◌, refl, true, false, List, [], ◌∷◌, ◌++◌, arith, any, IsKey, keyed_append, In-append_last,
  any_of_In, false_of_In, Bool-cases, inl, inr, nat_eq_iff, if◌then◌else◌, ◌*◌,
}
use promptlens_v.Sdk.{Environment, CapturedPrompt, QueuedPrompt, enqueue, same_event, ticks_per_ms}

-- No event is queued twice.
abbrev pub IsDistinct : List QueuedPrompt → Type 0
IsDistinct = IsKey (λ item. item.prompt.client_event_id)

other_event :
    (p : CapturedPrompt) (x : QueuedPrompt)
    → same_event p x ≡ false
    → p.client_event_id ≢ x.prompt.client_event_id
other_event p x h e = ground (arith, nat_eq_iff x.prompt.client_event_id p.client_event_id)

module _ (env : Environment) where
  open env use {World, load_queue, clock}

  unfoldable pub new_item : CapturedPrompt → World → QueuedPrompt
  new_item p w = record { prompt = p; attempts = 0; next_attempt_at = (clock w).0 * ticks_per_ms }

  pub enqueue_queue :
      (p : CapturedPrompt) (w : World)
      → load_queue (enqueue env p w) ≡ (
          if any (same_event p) (load_queue w)
          then load_queue w
          else load_queue w ++ new_item p w ∷ [])
  unfolding enqueue new_item
  enqueue_queue p w =
      ground (arith, env.load-save_queue (load_queue w ++ new_item p w ∷ []) (clock w).1)

  enqueue-IsDistinct :
      (p : CapturedPrompt) (w : World)
      → IsDistinct (load_queue w)
      → IsDistinct (load_queue (enqueue env p w))
  unfolding new_item
  enqueue-IsDistinct p w k =
      rw (enqueue_queue p w) (elim (Bool-cases (any (same_event p) (load_queue w))) [
        | inl e ↦ rw e k
        | inr e ↦ rw e (
            keyed_append (λ x. x.prompt.client_event_id) (load_queue w) k (new_item p w)
              (λ x i. other_event p x (false_of_In (same_event p) x (load_queue w) e i)))
      ])

  queued_event :
      (p : CapturedPrompt) (w : World) → any (same_event p) (load_queue (enqueue env p w)) ≡ true
  unfolding new_item
  queued_event p w = rw (enqueue_queue p w) (elim (Bool-cases (any (same_event p) (load_queue w))) [
    | inl e ↦ rw e e
    | inr e ↦ rw e (
        any_of_In (same_event p) (new_item p w) _ (In-append_last _ _)
          ((nat_eq_iff p.client_event_id p.client_event_id).1 refl))
  ])

  -- A captured prompt is queued with no attempt made, behind what was queued before, unless its event
  -- is queued already; then the world is left as it is. To queue it twice is to queue it once, and the
  -- events of the queue stay distinct.
  pub enqueue_once :
      (p : CapturedPrompt) (w : World)
      → IsDistinct (load_queue w)
      → (any (same_event p) (load_queue (enqueue env p w)) ≡ true)
        × (enqueue env p (enqueue env p w) ≡ enqueue env p w)
        × IsDistinct (load_queue (enqueue env p w))
  unfolding enqueue
  enqueue_once p w k = (queued_event p w, again, enqueue-IsDistinct p w k)
    where
      again : enqueue env p (enqueue env p w) ≡ enqueue env p w
      again = unfold enqueue in rw (queued_event p w, enqueue) refl
