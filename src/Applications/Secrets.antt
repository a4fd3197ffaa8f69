-- ===== src/Applications/Secrets.antt =====
-- The guard against stored verification codes in app/db/repository.py.
pub mod Codes
pub mod Runs
pub mod Strip
