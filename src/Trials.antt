-- ===== src/Trials.antt =====
-- The trial programs src/server/main_trial.c and src/client/main_trial.c.
pub mod Sessions
pub mod Connection
pub mod Resets
pub mod Tun
pub mod Polling
