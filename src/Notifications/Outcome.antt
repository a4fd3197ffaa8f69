-- ===== src/Notifications/Outcome.antt =====
-- app/notifications/worker.py NotificationWorker.send_one: what the provider's answer makes of a claimed delivery.
use job_ping.Base.{
  ℕ, ◌+◌, ◌*◌, ◌^◌, min, max, Bool, false, not, ◌&&◌, ◌||◌, Option, none, some, List, [], ◌∷◌, Text,
  codes, ltb, leb, if◌then◌else◌, ◌==◌, elem, nat_eq, list_eq, option_eq,
}
use job_ping.Notifications.Models.{
  DeliveryStatus, EmailDelivery, Subscriber, delivery_status_eq, SenderStatus, DeliveryKind,
  delivery_kind_eq,
}
use job_ping.Notifications.Budget.{days}

-- The body of an answer: not JSON, JSON that is no object, or an object with its `id` (where it is not empty) and
-- its `name`.
pub data Body : Type 0 where
  not_json : Body
  not_object : Body
  object : Option Text → Option Text → Body

-- An answer. The headers are read by int: `none` is one that is missing or no number, and a number below 0 is 0.
pub record Response : Type 0 where
  pub status_code : ℕ
  pub body : Body
  pub retry_after : Option ℕ
  pub daily_used : Option ℕ
  pub monthly_used : Option ℕ

pub data SendResult : Type 0 where
  taken : Text → SendResult
  network_error : SendResult
  provider_error : SendResult
  daily_quota_exceeded : SendResult
  monthly_quota_exceeded : SendResult
  known_error : Text → SendResult

unfoldable pub known_codes : List Text
known_codes =
    codes "rate_limit_exceeded"
    ∷ codes "invalid_api_key"
    ∷ codes "restricted_api_key"
    ∷ codes "validation_error"
    ∷ codes "invalid_from_address"
    ∷ codes "invalid_access"
    ∷ codes "invalid_idempotent_request"
    ∷ []

unfoldable pub result_of_name : Option Text → SendResult
unfolding known_codes
result_of_name none = provider_error
result_of_name (some name) =
    if name == codes "daily_quota_exceeded"
    then daily_quota_exceeded
    else if name == codes "monthly_quota_exceeded"
    then monthly_quota_exceeded
    else if elem name known_codes
    then known_error name
    else provider_error

-- response.is_success
unfoldable pub is_success : ℕ → Bool
is_success code = leb 200 code && ltb code 300

unfoldable pub result_of_body : ℕ → Body → SendResult
unfolding is_success result_of_name
result_of_body code not_json = network_error
result_of_body code not_object = network_error
result_of_body code (object none name) = result_of_name name
result_of_body code (object (some id) name) =
    if is_success code then taken id else result_of_name name

-- `none` is a request that failed with no answer.
unfoldable pub result_of : Option Response → SendResult
unfolding result_of_body
result_of none = network_error
result_of (some r) = result_of_body r.status_code r.body

-- `min(86400, max(1, int(header)))`, and 30 where that fails or is not reached.
unfoldable pub retry_header : Option ℕ → ℕ
retry_header none = 30
retry_header (some t) = min 86400 (max 1 t)

unfoldable pub retry_body : Body → Option ℕ → ℕ
unfolding retry_header
retry_body not_json t = 30
retry_body not_object t = retry_header t
retry_body (object id name) t = retry_header t

unfoldable pub retry_of : Option Response → ℕ
unfolding retry_body
retry_of none = 30
retry_of (some r) = retry_body r.body r.retry_after

-- An answer in the 400s, but for 429 and 409.
unfoldable pub is_rejection : Option Response → Bool
is_rejection none = false
is_rejection (some r) =
    leb 400 r.status_code
    && ltb r.status_code 500
    && not (r.status_code == 429 || r.status_code == 409)

unfoldable pub is_reported : DeliveryStatus → Bool
is_reported s =
    s == DeliveryStatus.delivered || s == DeliveryStatus.bounced || s == DeliveryStatus.complained

unfoldable pub code_of : SendResult → Option Text
code_of (taken id) = none
code_of network_error = some (codes "network_error")
code_of provider_error = some (codes "provider_error")
code_of daily_quota_exceeded = some (codes "daily_quota_exceeded")
code_of monthly_quota_exceeded = some (codes "monthly_quota_exceeded")
code_of (known_error name) = some name

-- `lease_until, error_code = None, None if accepted else code`
unfoldable pub given_up : SendResult → EmailDelivery → EmailDelivery
unfolding code_of
given_up r d = record d { lease_until = none; error_code = code_of r }

unfoldable pub taken_as : Text → EmailDelivery → EmailDelivery
unfolding is_reported
taken_as id d = record d {
  provider_id = some id;
  status = if is_reported d.status then d.status else DeliveryStatus.accepted;
}

unfoldable pub put_off : ℕ → EmailDelivery → EmailDelivery
put_off until d = record d { status = DeliveryStatus.pending; due_at = until }

-- `max(retry, min(3600, 15 * 2 ** min(attempts, 8)))`
unfoldable pub backoff : ℕ → ℕ → ℕ
backoff retry attempts = max retry (min 3600 (15 * 2 ^ min attempts 8))

unfoldable pub after_error : ℕ → Option Response → EmailDelivery → EmailDelivery
unfolding is_rejection put_off backoff retry_of
after_error now o d =
    if is_rejection o
    then record d { status = DeliveryStatus.failed }
    else put_off (now + backoff (retry_of o) d.attempts) d

-- What becomes of the delivery.
unfoldable pub settled : ℕ → Option Response → SendResult → EmailDelivery → EmailDelivery
unfolding given_up taken_as after_error put_off
settled now o (taken id) d = taken_as id (given_up (taken id) d)
settled now o daily_quota_exceeded d = put_off (now + days 1) (given_up daily_quota_exceeded d)
settled now o monthly_quota_exceeded d = put_off (now + days 31) (given_up monthly_quota_exceeded d)
settled now o network_error d = after_error now o (given_up network_error d)
settled now o provider_error d = after_error now o (given_up provider_error d)
settled now o (known_error name) d = after_error now o (given_up (known_error name) d)

-- `item.connection_version == user.connection_version`
unfoldable pub is_same_connection : EmailDelivery → Subscriber → Bool
is_same_connection d u = d.connection_version == some u.connection_version

unfoldable pub sender_after_error : Option Response → EmailDelivery → Subscriber → SenderStatus
unfolding is_rejection is_same_connection
sender_after_error o d u =
    if is_rejection o && is_same_connection d u then SenderStatus.sender_error else u.status

-- What becomes of the subscriber's sender.
unfoldable pub sender_status :
    Option Response → SendResult → EmailDelivery → Subscriber → SenderStatus
unfolding sender_after_error is_same_connection
sender_status o (taken id) d u =
    if d.kind == DeliveryKind.test && is_same_connection d u then SenderStatus.ready else u.status
sender_status o daily_quota_exceeded d u = u.status
sender_status o monthly_quota_exceeded d u = u.status
sender_status o network_error d u = sender_after_error o d u
sender_status o provider_error d u = sender_after_error o d u
sender_status o (known_error name) d u = sender_after_error o d u
