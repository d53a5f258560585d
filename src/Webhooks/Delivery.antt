-- ===== src/Webhooks/Delivery.antt =====
-- internal/webhooks/dispatcher.go (`deliver`) and sync.go: one delivery. The answers to the posts,
-- the waits between them and the encoding of the payload are parameters. The clock is read for the
-- payload (0), for an entry of the echo log (1) and for the record of the attempt (2).
pub mod Retries
use litemlflow.Prelude.{
  ℕ, zero, suc, ◌+◌, ◌*◌, String, Bool, true, false, not, ◌&&◌, List, [], ◌∷◌, Option, none, some,
  ltb, leb, ◌==◌, if◌then◌else◌, Text, Result, ok, err, other_error,
}
use litemlflow.Model.{Webhook, Run}
use litemlflow.Store.Webhooks.{WebhookTable, record_webhook_attempt}
use litemlflow.Webhooks.Subscription.{is_echo_url}
use litemlflow.Webhooks.Echo.{EchoEntry, EchoLog, record_entry}

pub record Job : Type 0 where
  pub webhook : Webhook
  pub event : Text
  pub run : Run

pub record Payload : Type 0 where
  pub event : Text
  pub run : Run
  pub timestamp : ℕ

-- What `post` returns: a status, which is 0 if the request could not be sent, and an error.
pub record Posted : Type 0 where
  pub status : ℕ
  pub failing : Bool

abbrev pub max_retries : ℕ
max_retries = 3

abbrev pub retry_multiplier : ℕ
retry_multiplier = 5

-- How the loop over the attempts ends: the posts that were made, the time that was waited, and
-- either the status to be recorded, or none where a wait was cut short.
pub record Ended : Type 0 where
  pub posts_made : ℕ
  pub waited : ℕ
  pub outcome : Option ℕ

abbrev pub is_success : Posted → Bool
is_success p = not p.failing && leb 200 p.status && ltb p.status 300

module _ (posts : ℕ → Posted) (interrupted : ℕ → Bool) where
  -- The loop of `deliver` at an attempt, with the number of attempts left, the next backoff, the
  -- time waited and the last status.
  unfoldable pub attempts : ℕ → ℕ → ℕ → ℕ → ℕ → Ended
  attempts zero attempt backoff waited last_status = record {
    posts_made = attempt;
    waited = waited;
    outcome = some last_status;
  }
  attempts (suc left) attempt backoff waited last_status =
      let waits = ltb 0 attempt in
      let p = posts attempt in
      let total = if waits then waited + backoff else waited in
      let next = if waits then backoff * retry_multiplier else backoff in
      let rest = attempts left (attempt + 1) next total p.status in
      if waits && interrupted attempt
      then record { posts_made = attempt; waited = waited; outcome = none }
      else if is_success p
      then record { posts_made = attempt + 1; waited = total; outcome = some p.status }
      else rest

  -- The loop of `deliver`.
  unfoldable pub send : ℕ → Ended
  unfolding attempts
  send retry_base = attempts max_retries 0 retry_base 0 0

-- What a delivery changes.
pub record Receivers : Type 0 where
  pub table : WebhookTable
  pub echo : Option EchoLog

-- Recording an echo, where there is a log.
abbrev pub echo_job : (ℕ → ℕ) → Job → Text → Option EchoLog → Option EchoLog
unfolding record_entry
echo_job clock j body none = none
echo_job clock j body (some l) = some (
    record_entry (clock 1)
      (record {
        timestamp = 0;
        event = j.event;
        webhook_id = j.webhook.id;
        body = body;
        run_id = j.run.id;
      })
      l)

abbrev pub record_outcome : ℕ → ℕ → Option ℕ → WebhookTable → WebhookTable
unfolding record_webhook_attempt
record_outcome id now none t = t
record_outcome id now (some status) t = record_webhook_attempt id status now t

-- `deliver`, by the body that the payload has, if it can be encoded.
unfoldable pub deliver_body :
    (ℕ → Posted) → (ℕ → Bool) → ℕ → (ℕ → ℕ) → Job → Option Text → Receivers → Receivers
unfolding send is_echo_url record_webhook_attempt record_entry
deliver_body posts interrupted retry_base clock j none r = r
deliver_body posts interrupted retry_base clock j (some body) r =
    if is_echo_url j.webhook.url
    then record {
      table = record_webhook_attempt j.webhook.id 200 (clock 2) r.table;
      echo = echo_job clock j body r.echo;
    }
    else record r {
      table =
          record_outcome j.webhook.id (clock 2) (send posts interrupted retry_base).outcome r.table;
    }

-- `deliver`
unfoldable pub deliver :
    (Payload → Option Text) → (ℕ → Posted) → (ℕ → Bool) → ℕ → (ℕ → ℕ) → Job → Receivers → Receivers
unfolding deliver_body
deliver marshal posts interrupted retry_base clock j r =
    deliver_body posts interrupted retry_base clock j
      (marshal (record { event = j.event; run = j.run; timestamp = clock 0 })) r

abbrev pub posted_result : Posted → Result ℕ
posted_result p = if p.failing then err other_error else ok p.status

-- `SyncDelivery.Deliver`, by the body: the status and the echo log.
unfoldable pub sync_deliver_body :
    Posted → (ℕ → ℕ) → Job → Option Text → Option EchoLog → Result ℕ × Option EchoLog
unfolding is_echo_url record_entry
sync_deliver_body posted clock j none echo = (err other_error, echo)
sync_deliver_body posted clock j (some body) echo =
    if is_echo_url j.webhook.url
    then (ok 200, echo_job clock j body echo)
    else (posted_result posted, echo)

-- `SyncDelivery.Deliver`
unfoldable pub sync_deliver :
    (Payload → Option Text) → Posted → (ℕ → ℕ) → Job → Option EchoLog → Result ℕ × Option EchoLog
unfolding sync_deliver_body
sync_deliver marshal posted clock j echo =
    sync_deliver_body posted clock j
      (marshal (record { event = j.event; run = j.run; timestamp = clock 0 })) echo
