-- ===== src/RequestLimits.antt =====
-- app/request_limits: the Redis scripts, the policies, the limiter, the stream leases, the cache of
-- public responses and the middleware that composes them.
pub mod TokenBucket
pub mod Refill
pub mod LeaseScripts
pub mod LeaseCounts
pub mod LeaseBounds
pub mod LeaseHolding
pub mod Renewal
pub mod Policies
pub mod Settings
pub mod Limiter
pub mod Cache
pub mod CacheSoundness
pub mod Messages
pub mod MessageBudget
pub mod Middleware
pub mod Admission
mod Examples
