-- ===== src/Sdk/Flush.antt =====
-- What a flush keeps in the queue, and what it loses.
use promptlens_v.Prelude.{
  ℕ, String, ◌≡◌, ◌<◌, refl, true, false, List, [], ◌∷◌, arith, any, Bool-cases, inl, inr, ltb, ◌*◌,
  Option-cases, ◌==◌, ℕ_eq,
}
use promptlens_v.Store.{Result, ok, err}
use promptlens_v.Sdk.{
  Environment, CapturedPrompt, QueuedPrompt, answered, ConnectorTokens, enqueue, same_event,
  ticks_per_ms, flush_item, flush_items, flush_internal, send, ingest, accepted, renewed, refresh,
  is_ok, postponed, retain, Eff, ◌>>=◌, settle, after_send,
}

module _ (env : Environment) where
  open env use {World, load_queue, clock, post_ingest}

  -- The server answered a post of the prompt with success.
  pub data Delivered (p : CapturedPrompt) : Type 0 where
    delivered :
        (access_token : String) (status : ℕ) (w : World)
        → (post_ingest p access_token w).0 ≡ answered status tt
        → is_ok status ≡ true
        → Delivered p

  -- How a flush may turn a queue into what it retains.
  pub data Retains : List QueuedPrompt → List QueuedPrompt → Type 0 where
    done : Retains [] []
    sent :
        {item : QueuedPrompt} {q q' : List QueuedPrompt}
        → Delivered item.prompt
        → Retains q q'
        → Retains (item ∷ q) q'
    waits :
        {item : QueuedPrompt} {q q' : List QueuedPrompt} (w : World)
        → (clock w).0 * ticks_per_ms < item.next_attempt_at
        → Retains q q'
        → Retains (item ∷ q) (item ∷ q')
    failed :
        {item : QueuedPrompt} {q q' : List QueuedPrompt} (w : World)
        → Retains q q'
        → Retains (item ∷ q) ((postponed env item w).0 ∷ q')

  ingest_inv :
      (p : CapturedPrompt) (token : String) (w : World) (status : ℕ)
      → (ingest env p token w).0 ≡ ok status
      → (post_ingest p token w).0 ≡ answered status tt
  unfolding ingest
  ingest_inv p token w status h = ground arith

  bind_inv :
      {A B : Type 0} (m : Eff env A) (f : A → Eff env B) (w : World) (b : B)
      → ((◌>>=◌ env m f) w).0 ≡ ok b
      → (a : A) × ((m w).0 ≡ ok a) × ((f a (m w).1).0 ≡ ok b)
  bind_inv {A} m f w b h = go (m w).0 refl
    where
      go : (r : Result A) → (m w).0 ≡ r → (a : A) × ((m w).0 ≡ ok a) × ((f a (m w).1).0 ≡ ok b)
      go (ok a) e = (a, e, ground arith)
      go (err x) e = absurd (ground arith)

  accepted_inv : (status : ℕ) (w : World) → (accepted env status w).0 ≡ ok tt → is_ok status ≡ true
  unfolding accepted
  accepted_inv status w h = ground arith

  -- Behind the first answer: success, or a second post with a new token.
  settle-Delivered :
      (p : CapturedPrompt) (t : ConnectorTokens) (status : ℕ) (w0 w : World)
      → (ingest env p t.access_token w0).0 ≡ ok status
      → (settle env p t status w).0 ≡ ok tt
      → Delivered p
  unfolding settle
  settle-Delivered p t status w0 w posted h = elim (Bool-cases (status == 401)) [
    | inr e ↦
        delivered t.access_token status w0 (ingest_inv p t.access_token w0 status posted)
          (accepted_inv status w (ground arith))
    | inl e ↦
        let (fresh, _, h1) =
          bind_inv (refresh env t.refresh_token)
            (λ fresh. ◌>>=◌ env (ingest env p fresh.access_token) (accepted env)) w tt
            (ground arith) in
        let w1 = (refresh env t.refresh_token w).1 in
        let (again, posted1, h2) =
          bind_inv (ingest env p fresh.access_token) (accepted env) w1 tt h1 in
        delivered fresh.access_token again w1 (ingest_inv p fresh.access_token w1 again posted1)
          (accepted_inv again _ h2)
  ]

  send-Delivered : (p : CapturedPrompt) (w : World) → (send env p w).0 ≡ ok tt → Delivered p
  unfolding send
  send-Delivered p w h = elim (Option-cases (env.load_tokens w)) [
    | inl missing ↦ absurd (ground arith)
    | inr (loaded, e) ↦
        let (t, _, h1) =
          bind_inv (renewed env loaded)
            (λ t. ◌>>=◌ env (ingest env p t.access_token) (settle env p t)) w tt (ground arith) in
        let w1 = (renewed env loaded w).1 in
        let (status, posted, h2) =
          bind_inv (ingest env p t.access_token) (settle env p t) w1 tt h1 in
        settle-Delivered p t status w1 _ posted h2
  ]

  flush_item-Retains :
      (item : QueuedPrompt) (q q' : List QueuedPrompt) (w : World)
      → Retains q q'
      → Retains (item ∷ q) (retain env (flush_item env item w).0 q')
  unfolding flush_item after_send
  flush_item-Retains item q q' w rest =
      elim (Bool-cases (ltb ((clock w).0 * ticks_per_ms) item.next_attempt_at)) [
        | inl e ↦ rw (e, flush_item) (waits w (ground arith) rest)
        | inr e ↦ rw (e, flush_item) (sent_or_failed (send env item.prompt (clock w).1).0 refl)
      ]
    where
      sent_or_failed :
          (r : Result (Unit {0}))
          → (send env item.prompt (clock w).1).0 ≡ r
          → Retains
              (item ∷ q)
              (retain env (after_send env item (send env item.prompt (clock w).1)).0 q')
      sent_or_failed (ok u) e =
          rw (e, after_send) (sent (send-Delivered item.prompt (clock w).1 e) rest)
      sent_or_failed (err x) e =
          rw (e, after_send) (failed (send env item.prompt (clock w).1).1 rest)

  flush_items-Retains : (q : List QueuedPrompt) (w : World) → Retains q (flush_items env q w).0
  unfolding flush_items
  flush_items-Retains [] w = done
  flush_items-Retains (item ∷ q) w =
      flush_item-Retains item q _ w (flush_items-Retains q (flush_item env item w).1)

  -- A flush leaves in the queue what was there, in its order: an item goes only when the server has
  -- answered a post of its prompt with success; it stays as it is only if its time has not come;
  -- otherwise it stays with the prompt kept and the next attempt put off.
  pub flush_internal-Retains :
      (w : World) → Retains (load_queue w) (load_queue (flush_internal env w))
  unfolding flush_internal
  flush_internal-Retains w = rw env.load-save_queue (flush_items-Retains (load_queue w) w)

  event_kept :
      (p : CapturedPrompt) (q q' : List QueuedPrompt)
      → Retains q q'
      → any (same_event p) q ≡ false
      → any (same_event p) q' ≡ false
  unfolding postponed
  event_kept p q q' done h = refl
  event_kept p q q' (sent {item} {q = r} {q' = r'} _ rest) h = event_kept p r r' rest (ground arith)
  event_kept p q q' (waits {item} {q = r} {q' = r'} w _ rest) h =
      ground (arith, event_kept p r r' rest)
  event_kept p q q' (failed {item} {q = r} {q' = r'} w rest) h =
      ground (arith, event_kept p r r' rest)

  -- The end of a flush that loaded its queue in the world `started` and saves in the world `now`: the server
  -- and other processes have acted meanwhile.
  abbrev pub finish_flush : (started : World) → (now : World) → World
  finish_flush started now = env.save_queue (flush_items env (load_queue started) started).0 now

  -- An event queued by another process while a flush waits for the server is lost: the flush saves
  -- what it retains of the queue it loaded at its start.
  pub enqueue_during_flush_lost :
      (p : CapturedPrompt) (started during : World)
      → any (same_event p) (load_queue started) ≡ false
      → any (same_event p) (load_queue (finish_flush started (enqueue env p during))) ≡ false
  enqueue_during_flush_lost p started during new =
      rw env.load-save_queue
        (event_kept p _ _ (flush_items-Retains (load_queue started) started) new)
