-- ===== src/Tests.antt =====
-- Runs of the model at concrete inputs, and the theorems applied there.
mod Toy
mod Patches
mod Identity
mod Diffs
mod Intents
mod Logs
mod Texts
mod Storage
mod Forks
mod Blaming
