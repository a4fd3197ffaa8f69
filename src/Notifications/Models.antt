-- ===== src/Notifications/Models.antt =====
-- app/db/models.py: the tables that the notification worker reads and writes. A time is a number of seconds.
-- Ids that are texts in the tables stand as numbers; matches and deliveries stand in the order of their
-- insertion.
use job_ping.Base.{
  ℕ, ◌≡◌, ◌↔◌, Bool, true, false, Option, List, arith, Text, nat_beq_iff, ◌==◌, discrete_eq, Eq,
  nat_eq,
}

pub data DeliveryKind : Type 0 where
  alert : DeliveryKind
  recap : DeliveryKind
  test : DeliveryKind

unfoldable pub DeliveryKind-discrete : Discrete DeliveryKind
DeliveryKind-discrete = hlevel

instance abbrev pub delivery_kind_eq : Eq DeliveryKind
delivery_kind_eq = discrete_eq DeliveryKind-discrete

pub data DeliveryStatus : Type 0 where
  pending : DeliveryStatus
  sending : DeliveryStatus
  accepted : DeliveryStatus
  delivered : DeliveryStatus
  bounced : DeliveryStatus
  complained : DeliveryStatus
  failed : DeliveryStatus
  cancelled : DeliveryStatus
  reconcile : DeliveryStatus
  expired : DeliveryStatus
  recap_only : DeliveryStatus

unfoldable pub DeliveryStatus-discrete : Discrete DeliveryStatus
DeliveryStatus-discrete = hlevel

instance abbrev pub delivery_status_eq : Eq DeliveryStatus
delivery_status_eq = discrete_eq DeliveryStatus-discrete

pub data SenderStatus : Type 0 where
  ready : SenderStatus
  needs_test : SenderStatus
  sender_error : SenderStatus
  configuration_error : SenderStatus

unfoldable pub SenderStatus-discrete : Discrete SenderStatus
SenderStatus-discrete = hlevel

instance abbrev pub sender_status_eq : Eq SenderStatus
sender_status_eq = discrete_eq SenderStatus-discrete

-- `shared`, or the subscriber's own key.
pub data Provider : Type 0 where
  shared : Provider
  byok : Provider

-- The account that a delivery is charged to: `shared`, or the subscriber's id.
pub data Account : Type 0 where
  shared_account : Account
  own : ℕ → Account

abbrev pub account_beq : Account → Account → Bool
account_beq shared_account shared_account = true
account_beq (own a) (own b) = a == b
account_beq _ _ = false

pub account_beq_iff : (a b : Account) → (account_beq a b ≡ true) ↔ (a ≡ b)
account_beq_iff shared_account shared_account = ground arith
account_beq_iff shared_account (own b) = ground arith
account_beq_iff (own a) shared_account = ground arith
account_beq_iff (own a) (own b) = ground (arith, nat_beq_iff a b)

instance abbrev pub account_eq : Eq Account
account_eq = record { equals = account_beq; equals_iff = account_beq_iff }

pub record Subscriber : Type 0 where
  pub id : ℕ
  pub email : Text
  pub verified : Bool
  pub suppressed : Bool
  pub alerts : Bool
  pub recap : Bool
  pub job_types : List Text
  pub seasons : List ℕ
  pub timezone : Text
  pub opted_at : Option ℕ
  pub window_start : Option ℕ
  pub next_recap : Option ℕ
  pub provider : Provider
  pub sender : Option Text
  pub key_ciphertext : Text
  pub connection_version : Text
  pub status : SenderStatus
  pub webhook_id : Text
  pub unsubscribe_token : Text
  pub webhook_ciphertext : Option Text

pub record DiscoveryEvent : Type 0 where
  pub id : ℕ
  pub occurrence_id : ℕ
  pub job_id : ℕ
  pub reposted : Bool
  pub discovered_at : ℕ
  pub processed : Bool

pub record Occurrence : Type 0 where
  pub id : ℕ
  pub job_id : ℕ
  pub reposted : Bool
  pub closed_at : Option ℕ

pub record Posting : Type 0 where
  pub id : ℕ
  pub job_type : Text
  pub season : ℕ

pub record JobMatch : Type 0 where
  pub subscriber_id : ℕ
  pub occurrence_id : ℕ
  pub job_id : ℕ
  pub reposted : Bool
  pub discovered_at : ℕ

-- `alert:{user}:{occurrence}`, `recap:{user}:{end}`, and a key of a test.
pub data DedupeKey : Type 0 where
  of_alert : ℕ → ℕ → DedupeKey
  of_recap : ℕ → ℕ → DedupeKey
  of_test : ℕ → DedupeKey

pub record EmailDelivery : Type 0 where
  pub id : ℕ
  pub subscriber_id : ℕ
  pub kind : DeliveryKind
  pub dedupe_key : DedupeKey
  pub job_ids : List ℕ
  pub occurrence_ids : List ℕ
  pub total_matches : ℕ
  pub new_count : ℕ
  pub reposted_count : ℕ
  pub window_start : Option ℕ
  pub window_end : Option ℕ
  pub created_at : ℕ
  pub due_at : ℕ
  pub status : DeliveryStatus
  pub lease_until : Option ℕ
  pub first_attempt : Option ℕ
  pub attempts : ℕ
  pub payload : Option Text
  pub account : Option Account
  pub connection_version : Option Text
  pub provider_id : Option Text
  pub error_code : Option Text

pub record EmailAccount : Type 0 where
  pub id : Account
  pub blocked_until : Option ℕ
  pub error_code : Option Text

-- The tables. `next_uuid` stands for uuid4: an id that no row has.
pub record Mailbox : Type 0 where
  pub subscribers : List Subscriber
  pub events : List DiscoveryEvent
  pub occurrences : List Occurrence
  pub postings : List Posting
  pub matches : List JobMatch
  pub deliveries : List EmailDelivery
  pub accounts : List EmailAccount
  -- The ids of EmailWebhookEvent.
  pub webhook_events : List Text
  pub next_uuid : ℕ
