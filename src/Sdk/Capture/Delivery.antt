-- ===== src/Sdk/Capture/Delivery.antt =====
-- What becomes of a captured prompt.
use promptlens_v.Prelude.{◌≡◌, Option, none, some, List, ◌⊎◌, In}
use promptlens_v.Store.{Error, Result, ok, err}
use promptlens_v.Sdk.{Environment, CapturedPrompt, QueuedPrompt}
use promptlens_v.Sdk.Flush.{Delivered}
use promptlens_v.Sdk.Capture.{Machine}

-- The error that is thrown where one of two steps fails, or both would.
abbrev pub first_error : Option Error → Option Error → Option Error
first_error none second = second
first_error (some e) second = some e

abbrev pub ending_of : Option Error → Result (Unit {0})
ending_of none = ok tt
ending_of (some e) = err e

module _ (env : Environment) where
  -- A prompt that a queue holds, whatever became of its attempts.
  abbrev pub Holds : CapturedPrompt → List QueuedPrompt → Type 0
  Holds p q = (item : QueuedPrompt) × In item q × (item.prompt ≡ p)

  module _ (machine : Machine env) where
    -- The prompt is delivered or held, and the command ends as the flush does.
    abbrev pub IsSafe :
        CapturedPrompt → (ending : Result (Unit {0})) → Result (Unit {0}) × env.World → Type 0
    IsSafe p ending r = (r.0 ≡ ending) × (Delivered env p ⊎ Holds p (env.load_queue r.1))

    -- The prompt is refused with an error, and the queue is as it was.
    abbrev pub Refused : (error : Option Error) → env.World → Result (Unit {0}) × env.World → Type 0
    Refused error w r =
        (e : Error) × (error ≡ some e) × (r.0 ≡ err e) × (env.load_queue r.1 ≡ env.load_queue w)
