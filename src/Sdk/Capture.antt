-- ===== src/Sdk/Capture.antt =====
-- `capture` of connectors/claude-code/src/cli.ts and connectors/codex/src/cli.ts: the command that the
-- hook of the tool runs for a prompt. Standard input is taken as read and parsed.
pub mod Delivery
mod Untouched
mod Tests
use Prim.Native.Char.{Char, code}
use Prim.Native.String
use promptlens_v.Prelude.{
  ℕ, String, Bool, true, false, ◌&&◌, ◌||◌, Option, none, some, List, [], ◌∷◌, ◌≡◌, ◌==◌, ℕ_eq, any,
  if◌then◌else◌,
}
use promptlens_v.Store.{Error, Result, ok, err}
use promptlens_v.Sdk.{
  Environment, CapturedPrompt, QueuedPrompt, ConnectorTokens, Eff, enqueue, flush_internal,
  flush_items, same_event,
}
use promptlens_v.Connector.Hooks.{Tool}

pub record HookInput : Type 0 where
  pub prompt : Option String
  pub cwd : Option String
  pub turn_id : Option ℕ

-- What the calls of the storage throw, if anything: a lock that another process holds too long, a
-- state file or a keyring that cannot be read. `loadTokens` is the one of the command itself.
pub record Storage : Type 0 where
  pub load_tokens_error : Option Error
  pub enqueue_load_error : Option Error
  pub enqueue_save_error : Option Error
  pub flush_load_error : Option Error
  pub flush_save_error : Option Error

-- What the command asks of the machine: white space as `trim` knows it, a new id, the time as a text
-- and the time zone. None of it touches the storage of the connector.
pub record Machine (env : Environment) : Type 0 where
  pub is_space : Char → Bool
  pub random_uuid : env.World → ℕ × env.World
  pub iso_now : env.World → String × env.World
  pub time_zone : String
  pub load_queue-random_uuid : (w : env.World) → env.load_queue (random_uuid w).1 ≡ env.load_queue w
  pub load_queue-iso_now : (w : env.World) → env.load_queue (iso_now w).1 ≡ env.load_queue w

-- `trim` leaves nothing of the text.
pub is_blank : (Char → Bool) → String → Bool
is_blank is_space String.[] = true
is_blank is_space (String.◌∷◌ c s) = is_space c && is_blank is_space s

-- `input.prompt?.trim()` as a condition.
pub spoken : (Char → Bool) → Option String → Option String
spoken is_space none = none
spoken is_space (some text) = if is_blank is_space text then none else some text

-- `/[\\/]/u`
abbrev is_separator : Char → Bool
is_separator c = code c == b'/' || code c == b'\\'

-- The first piece of a text and the pieces behind it.
pub split : String → String × List String
split String.[] = (String.[], [])
split (String.◌∷◌ c s) =
    let rest = split s in
    if is_separator c then (String.[], rest.0 ∷ rest.1) else (String.◌∷◌ c rest.0, rest.1)

-- `at(-1)` of the pieces, of which there is always one.
pub last_piece : String × List String → String
last_piece (piece, []) = piece
last_piece (piece, next ∷ pieces) = last_piece (next, pieces)

pub workspace_tags : Option String → List String
workspace_tags none = []
workspace_tags (some String.[]) = []
workspace_tags (some (String.◌∷◌ c s)) =
    String.◌++◌ "workspace:" (last_piece (split (String.◌∷◌ c s))) ∷ []

-- `|| 'UTC'`
abbrev zone_or_utc : String → String
zone_or_utc String.[] = "UTC"
zone_or_utc (String.◌∷◌ c s) = String.◌∷◌ c s

abbrev platform_of : Tool → String
platform_of Tool.claude = "claude-code"
platform_of Tool.codex = "codex"

module _ (env : Environment) (machine : Machine env) where
  -- Codex names its turn, which is then the id of the event.
  pub event_id : Tool → HookInput → env.World → ℕ × env.World
  event_id Tool.claude input w = machine.random_uuid w
  event_id Tool.codex input w = elim input.turn_id [
    | some id ↦ (id, w)
    | none ↦ machine.random_uuid w
  ]

  pub captured_prompt :
      Tool
      → HookInput
      → (content : String) → ConnectorTokens
      → env.World
      → CapturedPrompt × env.World
  captured_prompt tool input content tokens w =
      let id = event_id tool input w in
      let now = machine.iso_now id.1 in
      (
        record {
          client_event_id = id.0;
          project_id = tokens.project_id;
          content = content;
          platform = platform_of tool;
          model = platform_of tool;
          occurred_at = now.0;
          timezone = zone_or_utc machine.time_zone;
          tags = workspace_tags input.cwd;
        },
        now.1,
      )

  -- `enqueue` over a storage whose load and save may throw: a load that fails leaves the world, a save
  -- that fails the queue. A prompt whose event is queued already is not saved.
  pub enqueue_over : (load_error save_error : Option Error) → CapturedPrompt → Eff env (Unit {0})
  enqueue_over (some e) save_error prompt w = (err e, w)
  enqueue_over none none prompt w = (ok tt, enqueue env prompt w)
  enqueue_over none (some e) prompt w =
      if any (same_event prompt) (env.load_queue w) then (ok tt, w) else (err e, (env.clock w).1)

  -- `flush` over such a storage: where the save fails, all posts are done and nothing is written.
  pub flush_over : (load_error save_error : Option Error) → Eff env (Unit {0})
  flush_over (some e) save_error w = (err e, w)
  flush_over none none w = (ok tt, flush_internal env w)
  flush_over none (some e) w = (err e, (flush_items env (env.load_queue w) w).1)

  abbrev pub after_enqueue : Storage → Result (Unit {0}) × env.World → Result (Unit {0}) × env.World
  after_enqueue storage (err e, w) = (err e, w)
  after_enqueue storage (ok _, w) = flush_over storage.flush_load_error storage.flush_save_error w

  -- `enqueue`, then `flush`.
  pub hand_over : Storage → CapturedPrompt → Eff env (Unit {0})
  hand_over storage prompt w =
      after_enqueue storage
        (enqueue_over storage.enqueue_load_error storage.enqueue_save_error prompt w)

  -- The command below the test of the prompt.
  pub capture_content :
      (load_tokens_error : Option Error)
      → Storage
      → Tool
      → HookInput
      → (content : String) → Eff env (Unit {0})
  capture_content (some e) storage tool input content w = (err e, w)
  capture_content none storage tool input content w = elim (env.load_tokens w) [
    | none ↦ (ok tt, w)
    | some tokens ↦ let r = captured_prompt tool input content tokens w in hand_over storage r.0 r.1
  ]

  pub capture : Storage → Tool → HookInput → Eff env (Unit {0})
  capture storage tool input w = elim (spoken machine.is_space input.prompt) [
    | none ↦ (ok tt, w)
    | some content ↦ capture_content storage.load_tokens_error storage tool input content w
  ]
