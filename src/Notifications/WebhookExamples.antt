-- ===== src/Notifications/WebhookExamples.antt =====
-- Runs of the webhook, of a provider that signs nothing and names the mail `p1` in each event.
use job_ping.Base.{
  ◌≡◌, refl, inl, true, none, some, [], ◌∷◌, Text, codes, any, take, order_by, ok, elem, nat_eq,
}
use job_ping.Notifications.Models.{
  Subscriber, Mailbox, EmailDelivery, DeliveryStatus, shared_account, DeliveryKind-discrete,
  DeliveryStatus-discrete, SenderStatus-discrete,
}
use job_ping.Notifications.Claims.{Claimed, put_delivery, charged}
use job_ping.Notifications.ClaimLoop.{claim_delivery}
use job_ping.Notifications.Webhook.{
  Callbacks, WebhookRequest, webhook, handled, duplicate, connection_of, signed_event, is_mail,
}
use job_ping.Notifications.WebhookLaws.{again, webhook-again}
use job_ping.Notifications.Silence.{IsSilenced}
use job_ping.Notifications.Spared.{is_other}
use job_ping.Notifications.Bounces.{
  IsBounce, receive_reports, bounce_silences, no_claim_after_bounce,
}
use job_ping.Notifications.Examples.{reader, first_alert, drained}
use job_ping.Notifications.SendingExamples.{services}

abbrev callbacks : Callbacks
callbacks = record {
  shared_secret = some (codes "s");
  decrypt = λ c. none;
  verify = λ secret raw headers. some (record { type = some raw; email_id = some (codes "p1") });
  sent_to = λ p. some (codes "a@b.c" ∷ []);
}

abbrev neighbour : Subscriber
neighbour = record reader { id = 2; email = codes "d@e.f" }

abbrev accepted_alert : EmailDelivery
accepted_alert = record first_alert {
  status = DeliveryStatus.accepted;
  payload = some (codes "body");
  account = some shared_account;
  provider_id = some (codes "p1");
}

abbrev other_alert : EmailDelivery
other_alert = record first_alert { id = 101; subscriber_id = 2 }

abbrev outbox : Mailbox
outbox = record drained {
  subscribers = reader ∷ neighbour ∷ [];
  deliveries = accepted_alert ∷ other_alert ∷ [];
}

abbrev report : Text → Text → WebhookRequest
report id type = record { chunks = type ∷ []; headers = (codes "svix-id", id) ∷ [] }

abbrev bounce_report : WebhookRequest
bounce_report = report (codes "1") (codes "email.bounced")

abbrev bounced_box : Mailbox
bounced_box = record outbox {
  subscribers = record reader { suppressed = true } ∷ neighbour ∷ [];
  deliveries = record accepted_alert { status = DeliveryStatus.bounced } ∷ other_alert ∷ [];
  webhook_events = codes "shared:1" ∷ [];
}

is_handled : webhook callbacks (codes "shared") bounce_report outbox ≡ (ok handled, bounced_box)
unfolding webhook DeliveryStatus-discrete elem
is_handled = refl

webhook-again_example :
    webhook callbacks (codes "shared") bounce_report bounced_box ≡ (ok duplicate, bounced_box)
unfolding again
webhook-again_example =
    webhook-again callbacks (codes "shared") bounce_report outbox bounced_box handled is_handled

bounce_report-IsBounce :
    IsBounce callbacks (codes "shared") bounce_report outbox accepted_alert reader
unfolding connection_of signed_event elem is_mail
bounce_report-IsBounce = record {
  account = shared_account;
  secret = codes "s";
  event_id = codes "shared:1";
  event = record { type = some (codes "email.bounced"); email_id = some (codes "p1") };
  payload = codes "body";
  is_connected = refl;
  is_signed = refl;
  is_new = refl;
  is_kind = inl refl;
  is_found = refl;
  is_of = refl;
  has_payload = refl;
  is_address = refl;
}

-- The report of the delivery comes after that of the bounce.
bounce_silences_example : IsSilenced 1 100 (
    receive_reports callbacks
      ((codes "shared", report (codes "2") (codes "email.delivered")) ∷ [])
      (webhook callbacks (codes "shared") bounce_report outbox).1)
bounce_silences_example =
    bounce_silences callbacks (codes "shared") bounce_report outbox accepted_alert reader
      ((codes "shared", report (codes "2") (codes "email.delivered")) ∷ []) bounce_report-IsBounce

abbrev neighbours_claim : Claimed
neighbours_claim = record { delivery_id = 101; key = codes "k"; body = codes "body" }

grants_other :
    claim_delivery services 920060
      (receive_reports callbacks [] (webhook callbacks (codes "shared") bounce_report outbox).1)
    ≡ some (
      put_delivery (charged 920060 neighbour (codes "body") other_alert) bounced_box,
      some neighbours_claim,
    )
unfolding claim_delivery take order_by receive_reports DeliveryKind-discrete DeliveryStatus-discrete
    SenderStatus-discrete elem
grants_other = refl

no_claim_after_bounce_example :
    any
      (is_other 101 1)
      (receive_reports callbacks []
        (webhook callbacks (codes "shared") bounce_report outbox).1).deliveries
    ≡ true
no_claim_after_bounce_example =
    no_claim_after_bounce callbacks (codes "shared") bounce_report outbox accepted_alert reader []
      services 920060
      (put_delivery (charged 920060 neighbour (codes "body") other_alert) bounced_box)
      neighbours_claim bounce_report-IsBounce grants_other
