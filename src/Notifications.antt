-- ===== src/Notifications.antt =====
-- app/notifications: matching of discoveries to subscribers, recaps, quotas and leased delivery.
pub mod Models
pub mod Cutoff
pub mod Matching
pub mod MatchLaws
pub mod Drained
pub mod Justified
pub mod MatchAll
pub mod Pending
pub mod MatchEnds
pub mod Recaps
pub mod Windows
pub mod Members
pub mod Coverage
pub mod Resolved
pub mod RecapsReturn
pub mod Budget
pub mod Claims
pub mod ClaimLoop
pub mod UniqueIds
pub mod Skipped
pub mod ClaimLaws
pub mod Grants
pub mod Quotas
pub mod Outcome
pub mod Sending
pub mod Answers
pub mod OutcomeLaws
pub mod QuotaErrors
pub mod Webhook
pub mod WebhookLaws
pub mod Silence
pub mod Spared
pub mod Bounces
pub mod Admitted
pub mod Preferences
pub mod Rows
pub mod Places
pub mod SettingsPlaces
pub mod PlacesKept
mod Examples
mod SendingExamples
mod WebhookExamples
mod PreferenceExamples
