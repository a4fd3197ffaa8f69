-- ===== src/Lib.antt =====
-- JobPing: the decisions that its services make and the rows and keys that they keep.
--
-- JobPing polls job sources, stores each posting once, tells its users of new ones, and keeps a queue
-- of applications that an assistant works through. The parts meet in the database and in Redis: an
-- observation is classified against the stored occurrence of a job (Ingestion), written, and queued for
-- a check of its evidence that one worker at a time claims (Evidence); its discovery is matched to the
-- subscribers, who are sent alerts and evening recaps within the quota of a mail account (Notifications);
-- the facts of a check decide whether a job suits the requirements of its user (Evidence.Screening); open
-- postings are handed out by the application queue, and only the service changes the status of an
-- application (Applications); every request to the API passes the limits that Redis keeps (RequestLimits),
-- and every request to a job source waits for its domain (Scrapers).
--
-- Base: Boolean tests, lists, text, and actions that read and write a state and may raise. What an
--   action wrote before it raised stays written, since rolling back is the transaction's.
-- Applications: app/applications/service.py and the application methods of app/db/repository.py.
--   Models holds ApplicationAttempt, JobPosting's columns that matter here, and
--   app/applications/models.py. Secrets is the search for verification codes and secrets.
--   Repository.Store, Rows, Transition, Checkpoint, Answers and Queue are the methods
--   ensure_application_attempt, transition_application, update_application_checkpoint,
--   reset_application, save_application_answer, get_next_application and the two listings. Service is
--   ApplicationService, and its calls are the data type Call. Lifecycle holds what runs of the service
--   keep: a step relation on sessions (Lifecycle.Reach) with the transitions, polls, resets and
--   ingestions in any order; Lifecycle.Assigned is what a transition writes to each column.
--   Resolver and Resolution are AnswerResolver of app/applications/resolver.py, ResolutionLaws proves
--   what it promises.
-- RequestLimits: TokenBucket and LeaseScripts are the scripts of app/request_limits/scripts.py, on a
--   Redis whose keys expire; Renewal is the loop of StreamLeases.renew_until_lost in
--   app/request_limits/leases.py; Policies, Settings, Limiter, Cache and Middleware are the files of
--   those names under app/request_limits; Messages is guarded_receive of streams.py there. Refill,
--   LeaseCounts, LeaseBounds, LeaseHolding, Admission, CacheSoundness and MessageBudget prove what
--   they promise.
-- Ingestion: Classifier is app/services/repost_classifier.py, Location is
--   app/services/location_reconciliation.py, Deduplicator is app/services/deduplicator.py. Store,
--   Posting, Occurrences and Upsert are bulk_upsert_job_postings_with_outcomes of
--   app/db/repository.py for one job of its batch: the rows, the posting's row, the occurrences and
--   events, and the write as a whole. Authority, Lifecycle and Reopening prove what they promise.
--   SingleWrite is save_job_posting_with_outcome there, and SingleLaws compares the two. IdentityText is
--   the texts that app/services/hasher.py hashes, and Composition proves that they can be read back.
-- Evidence: Checks, Enqueue, Claims and Finish are enqueue, claim and finish of
--   app/evidence/store.py on the rows of EvidenceCheck; Leases and Coalescing prove what they promise.
--   Screening is app/evidence/screening.py: Facts is the requirements and the JSON that is read, Findings
--   and Evaluate are recent_h1b_summary and evaluate, Sql, Conditions and BucketExpression are the CASE
--   expression that filters listings, with three-valued conditions, and the call of evaluate in
--   app/evidence/api.py. ThreeValued, PayRows, Equivalence, Buckets and Matches prove what they promise.
-- Notifications: app/notifications/core.py and worker.py. Models holds the tables; Matching is
--   match_events, Cutoff is next_cutoff and the catch-up loop, Recaps is make_recaps, Budget is budget,
--   Claims and ClaimLoop are NotificationWorker.claim, Outcome and Sending are send_one. MatchLaws,
--   Drained and Justified prove what matching promises; Members, Coverage, Resolved, Windows and
--   RecapsReturn what recaps do; UniqueIds, Skipped, ClaimLaws, Grants and Quotas what a claim does; Answers, OutcomeLaws and
--   QuotaErrors what an answer of the provider leaves. Webhook is webhook and cancel_pending of
--   app/notifications/api.py; WebhookLaws is about repeated requests, Silence, Spared and Bounces about
--   what a bounce leaves and what claim grants after it.
--   Admitted, MatchAll and Preferences are the handlers of settings and mail accounts there; Pending and
--   MatchEnds prove that the matching of put_settings ends, and Rows, Places, SettingsPlaces and PlacesKept
--   that they keep to the places on the shared account.
-- Scrapers: PatchParser is app/scrapers/git_patch_parser.py and DomainLimiter is
--   app/utils/rate_limiter.py; PatchLaws and DomainLimits prove what they promise.
--
-- Numbers are naturals. Times are instants on one clock and are arguments, so that every interleaving
-- and every delay is covered; the scripts' rates are exact fractions, with a fill level in parts of a
-- token, where Lua has doubles, and likewise those of DomainLimiter, where Python has them. The ORDER BY
-- of a query is an insertion sort, and a table is the list of its rows. Loops are recursions on the list
-- that they read, but for three: the catch-up of make_recaps takes as many rounds as the time is, plus one,
-- where each round moves the cutoff on; the decimal digits of n take n + 1 rounds, where each divides; and the
-- loop of put_settings takes as many rounds as there are discoveries, where each processes one.
--
-- Parameters: Python's `\d` and casefold (Applications.Secrets.Codes, with the laws that
-- Applications.Secrets.Strip names); the normalization of a question (Applications.Resolver); the
-- canonical form and host of a URL, SHA-256 digests, the identity that a URL carries and Unicode normal
-- forms (Ingestion.Models, Rules, without laws); what Redis replies to the middleware
-- (RequestLimits.Middleware, Replies); what is extracted from the documents of a check (Evidence.Finish,
-- Collected); the key of a location and the version of the collector (Evidence.Screening); the clock of a
-- zone (Notifications.Cutoff, Zone, with the laws of Evenings); the check of a recipient, the key of an
-- account and the rendering of a mail (Notifications.Claims, Services), the next UUIDs, and the answer of
-- the provider (Notifications.Outcome, Response), and the signatures of its requests (Notifications.Webhook,
-- Callbacks); the names and clocks of zones and encrypt (Notifications.Preferences, Surroundings).
--
-- Not modelled: the scrapers of the sites and the pipelines, the browser, the command line, the HTTP and
-- MCP interfaces, the rendering of notifications, the evidence collector, metrics, and
-- configuration from the environment, which are input and output around the parts above.
-- Of the program's own logic these are not modelled: the checks of trackers, the extraction of facts from a
-- document, the merge of job details, and the scheduler.
pub mod Applications
pub mod Base
pub mod Evidence
pub mod Ingestion
pub mod Notifications
pub mod RequestLimits
pub mod Scrapers
