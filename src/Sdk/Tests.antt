-- ===== src/Sdk/Tests.antt =====
-- Examples for the connector client.
use promptlens_v.Prelude.{◌≡◌, refl, some, [], ◌∷◌, ◌++◌, false, any}
use promptlens_v.Sdk.{
  CapturedPrompt, QueuedPrompt, enqueue, flush_internal, flush_items, flush_item, send, settle,
  accepted, renewed, ingest, after_send, same_event,
}
use promptlens_v.Sdk.Sample.{Simulation, simulated}
use promptlens_v.Sdk.Shared.{Event, idle, follow, follow-flush_internal}
use promptlens_v.Sdk.Flush.{
  Retains, flush_internal-Retains, finish_flush, enqueue_during_flush_lost,
}

abbrev captured : CapturedPrompt
captured = record {
  client_event_id = 1;
  project_id = 9;
  content = "hello";
  platform = "codex";
  model = "codex";
  occurred_at = "2026-08-01T00:00:00.000Z";
  timezone = "UTC";
  tags = [];
}

abbrev queued : QueuedPrompt
queued = record { prompt = captured; attempts = 0; next_attempt_at = 0 }

abbrev online : Simulation
online = record {
  tokens = some (record {
    access_token = "a1";
    refresh_token = "r1";
    expires_at = 900_000;
    installation_id = 5;
    project_id = 9;
  });
  queue = queued ∷ [];
  time = 1_000;
  status = 201;
}

flushed : (flush_internal simulated online).queue ≡ []
unfolding flush_internal flush_items flush_item send settle accepted renewed ingest after_send
flushed = refl

flush_internal-Retains_example :
    Retains simulated (queued ∷ []) (flush_internal simulated online).queue
flush_internal-Retains_example = flush_internal-Retains simulated online

enqueue_during_flush_lost_example :
    any
      (same_event (record captured { client_event_id = 2 }))
      (finish_flush simulated online
        (enqueue simulated (record captured { client_event_id = 2 }) online)).queue
    ≡ false
enqueue_during_flush_lost_example =
    enqueue_during_flush_lost simulated (record captured { client_event_id = 2 }) online online refl

-- Two calls, then a round for the queued item, then one more call, and the end.
follow-flush_internal_example :
    follow simulated
      (Event.calls_flush ∷ (Event.calls_flush ∷ Event.round ∷ Event.calls_flush ∷ [])
        ++ Event.round ∷ [])
      (idle simulated online 0)
    ≡ idle simulated (flush_internal simulated online) 1
follow-flush_internal_example =
    follow-flush_internal simulated (Event.calls_flush ∷ Event.round ∷ Event.calls_flush ∷ [])
      online 0 refl
