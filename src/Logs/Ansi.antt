-- ===== src/Logs/Ansi.antt =====
-- plugins/logging/src/logs/ansi.ts: escape sequences in log lines.
pub mod Style
pub mod Sgr
pub mod Scan
pub mod Spans
pub mod Runs
pub mod Shown
pub mod Visible
pub mod Commands
pub mod Effects
pub mod Colored
mod Tests
