-- ===== src/Connector.antt =====
-- The connectors, connectors/claude-code/src and connectors/codex/src: the command that the tool runs
-- for every prompt (captureCommand), the hook settings that installHook merges, and the lock of the
-- state files. Texts are lists of code points.
pub mod Command
pub mod Hooks
pub mod Lock
