-- ===== src/Ingestion.antt =====
-- The write of one observed job: app/services/repost_classifier.py, app/services/location_reconciliation.py,
-- app/services/deduplicator.py, app/services/hasher.py and the upserts of app/db/repository.py.
pub mod Models
pub mod Classifier
pub mod Location
pub mod Store
pub mod Posting
pub mod Occurrences
pub mod Upsert
pub mod Deduplicator
pub mod Authority
pub mod Lifecycle
pub mod Reopening
pub mod IdentityText
pub mod Composition
pub mod SingleWrite
pub mod SingleLaws
mod Examples
