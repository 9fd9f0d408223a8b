-- ===== src/Connector/Lock.antt =====
-- withLock of connectors/claude-code/src/storage.ts and connectors/codex/src/storage.ts: a lock file
-- that is created exclusively, with forty attempts. Every prompt runs the connector in a process
-- of its own, so the processes act in any order and may be killed at any point; the wait of 50 ms
-- between two attempts is the time until the next action of a process.
pub mod Exclusion
mod Tests
use promptlens_v.Prelude.{ℕ, Bool, true, false, List, [], ◌∷◌, suc, ltb, ◌==◌, ℕ_eq, if◌then◌else◌}

-- A process before it calls withLock, at an attempt of its loop, inside the operation, after it
-- returned, after "Connector state is busy.", and killed.
pub data Process : Type 0 where
  idle : Process
  trying : (attempt : ℕ) → Process
  holding : Process
  done : Process
  busy : Process
  killed : Process

-- The processes by their number, and whether the lock file is there.
pub record Machine : Type 0 where
  pub process : ℕ → Process
  pub locked : Bool

pub data Action : Type 0 where
  call attempt_open finish kill : Action

abbrev pub max_attempts : ℕ
max_attempts = 40

-- The attempt after one that found the file, or the end of the loop.
pub next_attempt : (attempt : ℕ) → Process
next_attempt attempt =
    if ltb (suc attempt) max_attempts then Process.trying (suc attempt) else Process.busy

abbrev pub set_process : (i : ℕ) → Process → (ℕ → Process) → ℕ → Process
set_process i p processes j = if j == i then p else processes j

-- What process i, found in the given place, does.
pub act : Action → (i : ℕ) → Process → Machine → Machine
act Action.call i Process.idle m = record m { process = set_process i (Process.trying 0) m.process }
act Action.attempt_open i (Process.trying attempt) m =
    if m.locked
    then record m { process = set_process i (next_attempt attempt) m.process }
    else record { process = set_process i Process.holding m.process; locked = true }
act Action.finish i Process.holding m = record {
  process = set_process i Process.done m.process;
  locked = false;
}
act Action.kill i p m = record m { process = set_process i Process.killed m.process }
act _ i p m = m

pub run : List (Action × ℕ) → Machine → Machine
run [] m = m
run ((a, i) ∷ rest) m = run rest (act a i (m.process i) m)
