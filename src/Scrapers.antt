-- ===== src/Scrapers.antt =====
-- app/scrapers: the parser of patches, and the waiting that app/utils/rate_limiter.py imposes on requests.
pub mod PatchParser
pub mod PatchLaws
pub mod DomainLimiter
pub mod DomainLimits
mod Examples
