-- ===== src/Ingestion/Deduplicator.antt =====
-- app/services/deduplicator.py JobDeduplicator: the Redis script that compares and updates the content
-- hash of a job, and its state by that.
use job_ping.Ingestion.Models.{Instant}
use job_ping.Ingestion.Store.{DeduplicationState}
use job_ping.Base.{
  ℕ, ◌+◌, ◌≡◌, Bool, Option, none, some, arith, Text, leb, if◌then◌else◌, ◌==◌, nat_eq, list_eq,
}

pub record CachedHash : Type 0 where
  pub content_hash : Text
  pub expires : Instant

-- GET KEYS[1]
unfoldable pub cached : Instant → Option CachedHash → Option Text
cached now none = none
cached now (some c) = if leb c.expires now then none else some c.content_hash

-- _COMPARE_AND_UPDATE: the number it returns and what it leaves at the key.
unfoldable pub compare_and_update : Instant → ℕ → Text → Bool → Option Text → ℕ × CachedHash
compare_and_update now ttl hash is_closed previous =
    let kept : CachedHash = record { content_hash = hash; expires = now + ttl } in
    elim previous [
      | none ↦ (1, kept)
      | some old ↦ if old == hash then (4, kept) else if is_closed then (3, kept) else (2, kept)
    ]

-- _RESULTS
unfoldable pub result_state : ℕ → Option DeduplicationState
result_state n =
    if n == 1
    then some DeduplicationState.new_role
    else if n == 2
    then some DeduplicationState.role_updated
    else if n == 3
    then some DeduplicationState.role_closed
    else if n == 4
    then some DeduplicationState.no_op
    else none

unfoldable pub classify_and_update :
    ℕ → Instant → Text → Bool → Option CachedHash → Option DeduplicationState × CachedHash
unfolding cached compare_and_update result_state
classify_and_update ttl now hash is_closed state =
    let (n, kept) = compare_and_update now ttl hash is_closed (cached now state) in
    (result_state n, kept)

-- A second observation of the same content before the key is over is no change, and one of other
-- content is a closure exactly when the job is closed; once the key is over the job is new again.
pub classify_again :
    (ttl now later : ℕ) (first second : Text) (was_closed is_closed : Bool)
    (state : Option CachedHash)
    → let kept = (classify_and_update ttl now first was_closed state).1 in
      (classify_and_update ttl later second is_closed (some kept)).0
      ≡ some (
          if leb (now + ttl) later
          then DeduplicationState.new_role
          else if first == second
          then DeduplicationState.no_op
          else if is_closed
          then DeduplicationState.role_closed
          else DeduplicationState.role_updated)
unfolding classify_and_update
classify_again ttl now later first second was_closed is_closed state = ground arith
