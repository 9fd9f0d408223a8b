-- ===== src/Sdk/Capture/Untouched.antt =====
-- A flush writes the queue at its end only.
use promptlens_v.Prelude.{
  ℕ, String, ◌≡◌, refl, ◌∙◌, List, [], ◌∷◌, arith, Bool-cases, inl, inr, leb, ltb, ◌*◌, ◌+◌, ◌==◌,
  ℕ_eq, Option-cases,
}
use promptlens_v.Store.{Result-cases}
use promptlens_v.Sdk.{
  Environment, CapturedPrompt, QueuedPrompt, ConnectorTokens, TokenResponse, Response, unreachable,
  answered, Eff, ◌>>=◌, send, ingest, accepted, renewed, refresh, refresh_reply, store_tokens,
  settle, after_send, postponed, flush_item, flush_items, is_ok, ticks_per_ms,
}

-- The queue is written by `save_queue` alone: no other process takes part.
pub record Undisturbed (env : Environment) : Type 0 where
  pub by_save_tokens :
      (t : ConnectorTokens) (w : env.World)
      → env.load_queue (env.save_tokens t w) ≡ env.load_queue w
  pub by_clear_tokens : (w : env.World) → env.load_queue (env.clear_tokens w) ≡ env.load_queue w
  pub by_random : (w : env.World) → env.load_queue (env.random w).1 ≡ env.load_queue w
  pub by_ingest :
      (p : CapturedPrompt) (t : String) (w : env.World)
      → env.load_queue (env.post_ingest p t w).1 ≡ env.load_queue w
  pub by_refresh :
      (t : String) (w : env.World) → env.load_queue (env.post_refresh t w).1 ≡ env.load_queue w

module _ (env : Environment) (quiet : Undisturbed env) where
  open env use {World, load_queue, clock}

  abbrev Leaves : {A : Type 0} → Eff env A → Type 0
  Leaves m = (w : World) → load_queue (m w).1 ≡ load_queue w

  Leaves->>= :
      {A B : Type 0} (m : Eff env A) (f : A → Eff env B)
      → Leaves m
      → ((a : A) → Leaves (f a))
      → Leaves (◌>>=◌ env m f)
  Leaves->>= m f h k w = elim (Result-cases (m w).0) [
    | inl (a, e) ↦ ground (arith, e, h w, k a (m w).1)
    | inr (x, e) ↦ ground (arith, e, h w)
  ]

  store_tokens-Leaves : (payload : TokenResponse) → Leaves (store_tokens env payload)
  unfolding store_tokens
  store_tokens-Leaves payload w = quiet.by_save_tokens _ _ ∙ env.load_queue-clock w

  reply-Leaves : (r : Response TokenResponse) → Leaves (refresh_reply env r)
  unfolding refresh_reply
  reply-Leaves unreachable w = refl
  reply-Leaves (answered status payload) w = elim (Bool-cases (is_ok status)) [
    | inl fine ↦ rw (refresh_reply, fine) (store_tokens-Leaves payload w)
    | inr bad ↦ ground (arith, bad, quiet.by_clear_tokens w)
  ]

  refresh-Leaves : (t : String) → Leaves (refresh env t)
  unfolding refresh
  refresh-Leaves t w =
      reply-Leaves (env.post_refresh t w).0 (env.post_refresh t w).1 ∙ quiet.by_refresh t w

  ingest-Leaves : (p : CapturedPrompt) (t : String) → Leaves (ingest env p t)
  unfolding ingest
  ingest-Leaves p t w = ground (arith, quiet.by_ingest p t w)

  accepted-Leaves : (status : ℕ) → Leaves (accepted env status)
  unfolding accepted
  accepted-Leaves status w = ground arith

  renewed-Leaves : (tokens : ConnectorTokens) → Leaves (renewed env tokens)
  unfolding renewed
  renewed-Leaves tokens w = elim (Bool-cases (leb tokens.expires_at ((clock w).0 + 30000))) [
    | inl soon ↦
        rw (renewed, soon)
          (refresh-Leaves tokens.refresh_token (clock w).1 ∙ env.load_queue-clock w)
    | inr later ↦ rw (renewed, later) (env.load_queue-clock w)
  ]

  settle-Leaves :
      (p : CapturedPrompt) (tokens : ConnectorTokens) (status : ℕ)
      → Leaves (settle env p tokens status)
  unfolding settle
  settle-Leaves p tokens status w = elim (Bool-cases (status == 401)) [
    | inl again ↦
        rw (settle, again)
          (Leaves->>= {B = Unit {0}} (refresh env tokens.refresh_token)
            (λ fresh. ◌>>=◌ env (ingest env p fresh.access_token) (accepted env))
            (refresh-Leaves tokens.refresh_token)
            (λ fresh.
              Leaves->>= {B = Unit {0}} (ingest env p fresh.access_token) (accepted env)
                (ingest-Leaves p fresh.access_token) accepted-Leaves)
            w)
    | inr settled ↦ rw (settle, settled) (accepted-Leaves status w)
  ]

  send-Leaves : (p : CapturedPrompt) → Leaves (send env p)
  unfolding send
  send-Leaves p w = elim (Option-cases (env.load_tokens w)) [
    | inl e ↦ rw (send, e) refl
    | inr (loaded, e) ↦
        rw (send, e)
          (Leaves->>= {B = Unit {0}} (renewed env loaded)
            (λ tokens. ◌>>=◌ env (ingest env p tokens.access_token) (settle env p tokens))
            (renewed-Leaves loaded)
            (λ tokens.
              Leaves->>= {B = Unit {0}} (ingest env p tokens.access_token) (settle env p tokens)
                (ingest-Leaves p tokens.access_token) (settle-Leaves p tokens))
            w)
  ]

  flush_item-Leaves :
      (item : QueuedPrompt) (w : World) → load_queue (flush_item env item w).1 ≡ load_queue w
  unfolding flush_item after_send postponed
  flush_item-Leaves item w =
      elim (Bool-cases (ltb ((clock w).0 * ticks_per_ms) item.next_attempt_at)) [
        | inl early ↦ rw (flush_item, early) (env.load_queue-clock w)
        | inr late ↦ elim (Result-cases (send env item.prompt (clock w).1).0) [
          | inl (_, e) ↦
              rw (flush_item, late, e)
                (send-Leaves item.prompt (clock w).1 ∙ env.load_queue-clock w)
          | inr (x, e) ↦
              rw (flush_item, late, e)
                (quiet.by_random _
                  ∙ env.load_queue-clock _
                  ∙ send-Leaves item.prompt (clock w).1
                  ∙ env.load_queue-clock w)
        ]
      ]

  pub flush_items-Leaves :
      (items : List QueuedPrompt) (w : World)
      → load_queue (flush_items env items w).1 ≡ load_queue w
  unfolding flush_items
  flush_items-Leaves [] w = refl
  flush_items-Leaves (item ∷ items) w =
      flush_items-Leaves items (flush_item env item w).1 ∙ flush_item-Leaves item w
