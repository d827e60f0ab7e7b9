-- ===== src/Logs/Parse.antt =====
-- plugins/logging/src/logs/parse.ts: a log line as the columns of the viewer.
pub mod Entry
pub mod Fields
pub mod Record
pub mod Columns
pub mod Line
pub mod Plain
pub mod Clean
pub mod Undefined
pub mod Kept
pub mod Override
pub mod Sniff
mod Tests
