-- ===== src/Notifications/SendingExamples.antt =====
-- Runs of claims and of answers of the provider.
use job_ping.Base.{
  ◌+◌, ◌<◌, ◌≡◌, refl, true, none, some, arith, codes, Option, nat_eq, take, order_by, ◌≢◌,
}
use job_ping.Notifications.Models.{
  Subscriber, Mailbox, EmailDelivery, DeliveryStatus, DeliveryKind-discrete,
  DeliveryStatus-discrete, SenderStatus-discrete, Provider, own,
}
use job_ping.Notifications.Claims.{Services, Claimed, charged, put_delivery, account_of}
use job_ping.Notifications.ClaimLoop.{claim_delivery}
use job_ping.Notifications.Grants.{IsGranted, claim_grants}
use job_ping.Notifications.Outcome.{Response, result_of, Body, settled}
use job_ping.Notifications.OutcomeLaws.{Settled, settled_outcome}
use job_ping.Notifications.Budget.{days}
use job_ping.Notifications.Quotas.{claim_within_quota, IsInQuota}
use job_ping.Notifications.QuotaErrors.{quota_days, quota_error_stops}
use job_ping.Notifications.Sending.{settle_found}
use job_ping.Notifications.Examples.{reader, first_alert, drained}

abbrev pub services : Services
services = record {
  verify_recipient = λ id email. some true;
  decrypt = λ text. none;
  shared_key = some (codes "k");
  render = λ m d u. some (codes "body");
}

abbrev claim_of_alert : Claimed
claim_of_alert = record { delivery_id = 100; key = codes "k"; body = codes "body" }

abbrev claimed_box : Mailbox
claimed_box = put_delivery (charged 920060 reader (codes "body") first_alert) drained

grants : claim_delivery services 920060 drained ≡ some (claimed_box, some claim_of_alert)
unfolding claim_delivery take order_by DeliveryKind-discrete DeliveryStatus-discrete
    SenderStatus-discrete
grants = refl

claim_grants_example :
    (d : EmailDelivery) × (u : Subscriber) × IsGranted services 920060 drained claimed_box
      claim_of_alert d u
claim_grants_example =
    claim_grants services 920060 drained claimed_box claim_of_alert (refl, tt) grants

claim_within_quota_example : IsInQuota 920060 first_alert reader claimed_box
unfolding put_delivery
claim_within_quota_example =
    claim_within_quota services 920060 drained claimed_box claim_of_alert first_alert reader
      (refl, tt) grants refl refl refl

abbrev over_quota : Option Response
over_quota = some (record {
  status_code = 429;
  body = Body.object none (some (codes "daily_quota_exceeded"));
  retry_after = none;
  daily_used = some 90;
  monthly_used = none;
})

abbrev sent_alert : EmailDelivery
sent_alert = charged 920060 reader (codes "body") first_alert

is_sending : sent_alert.status ≡ DeliveryStatus.sending
unfolding charged
is_sending = refl

settled_outcome_example :
    Settled 920061 over_quota (settled 920061 over_quota (result_of over_quota) sent_alert)
settled_outcome_example = settled_outcome 920061 over_quota sent_alert is_sending

a_day : 920070 < 920061 + days (quota_days (result_of over_quota))
unfolding result_of
a_day = omega arith

-- A neighbour's own account has used up its day; the reader's is another.
abbrev neighbour : Subscriber
neighbour = record reader { id = 7; provider = Provider.byok }

abbrev after_answer : Mailbox
after_answer = record drained {
  accounts = (settle_found 920061 over_quota sent_alert neighbour (own 7) drained).accounts;
}

abbrev granted_after : Mailbox
granted_after = put_delivery (charged 920070 reader (codes "body") first_alert) after_answer

grants_after :
    claim_delivery services 920070 after_answer ≡ some (granted_after, some claim_of_alert)
unfolding claim_delivery take order_by DeliveryKind-discrete DeliveryStatus-discrete
    SenderStatus-discrete settle_found
grants_after = refl

quota_error_stops_example : account_of reader ≢ own 7
unfolding put_delivery
quota_error_stops_example =
    quota_error_stops services 920061 920070 over_quota sent_alert neighbour (own 7) drained
      after_answer granted_after claim_of_alert first_alert reader (omega arith) a_day refl
      (refl, tt) grants_after refl refl refl
