-- ===== src/Tests.antt =====
-- Runs of the model on concrete inputs, and the theorems applied to such inputs.
pub mod World
mod Texts
mod Commands
mod Lists
mod Daemon
mod Mounts
mod Start
mod Mounted
