-- ===== src/Applications.antt =====
-- Applying for jobs: app/applications, and the application methods of app/db/repository.py.
pub mod Models
pub mod Secrets
pub mod Repository
pub mod Service
pub mod Lifecycle
pub mod Resolver
pub mod Resolution
pub mod ResolutionLaws
mod ResolverExamples
mod Examples
