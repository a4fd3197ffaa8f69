-- ===== src/Evidence.antt =====
-- app/evidence: the queue of evidence checks (store.py), and the screening of jobs (screening.py).
pub mod Checks
pub mod Enqueue
pub mod Claims
pub mod Finish
pub mod Leases
pub mod Coalescing
pub mod Screening
mod Examples
