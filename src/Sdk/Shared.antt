-- ===== src/Sdk/Shared.antt =====
-- `flush` of connectors/sdk/src/index.ts: calls of one process that overlap share a run. A round is
-- one round of the loop of `flushInternal`, or its end.
use promptlens_v.Prelude.{
  ℕ, suc, ◌≡◌, sym, ap, ◌∙◌, Bool, true, false, Option, none, some, List, [], ◌∷◌, ◌++◌, arith,
  length, count,
}
use promptlens_v.Sdk.{Environment, QueuedPrompt, flush_item, flush_items, flush_internal, retain}
use mathlib.Core.List.{append_assoc, append-nil}

-- What the run behind `flushPromise` has still to do and what it has retained.
pub record Flushing : Type 0 where
  pub left : List QueuedPrompt
  pub retained : List QueuedPrompt

pub data Event : Type 0 where
  calls_flush round : Event

abbrev pub is_round : Event → Bool
is_round Event.calls_flush = false
is_round Event.round = true

module _ (env : Environment) where
  open env use {World, load_queue, save_queue}

  -- A client: the world, `flushPromise` and the number of runs started.
  pub record Client : Type 0 where
    pub world : World
    pub flush_promise : Option Flushing
    pub runs : ℕ

  abbrev pub idle : World → (runs : ℕ) → Client
  idle w runs = record { world = w; flush_promise = none; runs = runs }

  -- `flush`: a run that is under way is shared, else one starts with the queue as it stands.
  pub flush : Client → Client
  flush c = elim c.flush_promise [
    | some run ↦ c
    | none ↦ record c {
      flush_promise = some (record { left = load_queue c.world; retained = [] });
      runs = suc c.runs;
    }
  ]

  -- The next step of a run: an item of its queue, or the end, which clears `flushPromise`.
  pub advance : Flushing → Client → Client
  advance run c = elim run.left [
    | [] ↦ idle (save_queue run.retained c.world) c.runs
    | item ∷ items ↦
        let r = flush_item env item c.world in
        record c {
          world = r.1;
          flush_promise =
              some (record { left = items; retained = run.retained ++ retain env r.0 [] });
        }
  ]

  pub happens : Event → Client → Client
  happens Event.calls_flush c = flush c
  happens Event.round c = elim c.flush_promise [ none ↦ c | some run ↦ advance run c ]

  pub follow : List Event → Client → Client
  follow [] c = c
  follow (e ∷ es) c = follow es (happens e c)

  retain_append :
      (o : Option QueuedPrompt) (kept items : List QueuedPrompt)
      → (kept ++ retain env o []) ++ items ≡ kept ++ retain env o items
  retain_append none kept items = ap (λ xs. xs ++ items) (append-nil kept)
  retain_append (some item) kept items = append_assoc kept (item ∷ []) items

  run_ends :
      (es : List Event) (items kept : List QueuedPrompt) (w : World) (n : ℕ)
      → count is_round es ≡ length items
      → follow (es ++ Event.round ∷ []) (record {
        world = w;
        flush_promise = some (record { left = items; retained = kept });
        runs = n;
      })
        ≡ idle (save_queue (kept ++ (flush_items env items w).0) (flush_items env items w).1) n
  unfolding follow happens flush advance flush_items
  run_ends [] [] kept w n h = ap (λ q. idle (save_queue q w) n) (sym (append-nil kept))
  run_ends [] (item ∷ items) kept w n h = absurd (ground arith)
  run_ends (Event.calls_flush ∷ es) items kept w n h = run_ends es items kept w n h
  run_ends (Event.round ∷ es) [] kept w n h = absurd (ground arith)
  run_ends (Event.round ∷ es) (item ∷ items) kept w n h =
      let r = flush_item env item w in
      let rest = flush_items env items r.1 in
      run_ends es items (kept ++ retain env r.0 []) r.1 n (ground arith)
      ∙ ap (λ q. idle (save_queue q rest.1) n) (retain_append r.0 kept rest.0)

  -- However many calls of `flush` come while the run that a first call started goes through its
  -- queue: they start no run of their own, and when the run has ended the world is as one flush
  -- leaves it and the client is free for the next.
  pub follow-flush_internal :
      (es : List Event) (w : World) (n : ℕ)
      → count is_round es ≡ length (load_queue w)
      → follow (Event.calls_flush ∷ es ++ Event.round ∷ []) (idle w n)
        ≡ idle (flush_internal env w) (suc n)
  unfolding follow happens flush flush_internal
  follow-flush_internal es w n h = run_ends es (load_queue w) [] w (suc n) h
