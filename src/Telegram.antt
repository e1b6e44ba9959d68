-- ===== src/Telegram.antt =====
-- What is shown to the Telegram user and what comes back: crates/harness/src/telegram.rs, and the
-- parsing of approval answers of crates/harness/src/foreground_orchestration.rs.
pub mod Render
pub mod Prompt
pub mod Callback
