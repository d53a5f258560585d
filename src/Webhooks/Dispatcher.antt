-- ===== src/Webhooks/Dispatcher.antt =====
-- internal/webhooks/dispatcher.go: the queue, the calls of Notify and the workers, as steps that a
-- schedule puts in any order. Workers that wait are alike, so the state counts them; a worker that
-- delivers stands as its job, and a call of Notify as what it has still to do.
pub mod Counting
pub mod Ledger
mod Sends
pub mod Schedules
use litemlflow.Prelude.{
  ℕ, zero, suc, ◌+◌, String, Bool, true, false, not, ◌&&◌, ◌||◌, List, [], ◌∷◌, ◌++◌, Option, none,
  some, ltb, ◌==◌, if◌then◌else◌, length, Text, text_eq,
}
use litemlflow.Model.{Webhook, Run}
use litemlflow.Store.Webhooks.{list_webhooks}
use litemlflow.Webhooks.Subscription.{matches_event}
use litemlflow.Webhooks.Delivery.{Job, Payload, Posted, Receivers, deliver}

abbrev pub queue_capacity : ℕ
queue_capacity = 1024

abbrev pub max_workers : ℕ
max_workers = 8

-- A call of `Notify` in its loop, with the webhooks it has yet to look at; `checked` if it has found
-- `stopCh` open for the first of them and is about to send its job.
pub record Sender : Type 0 where
  pub event : Text
  pub run : Run
  pub pending : List Webhook
  pub checked : Bool

-- `offered` and `delivered` are what a bystander has seen: the jobs that `Notify` has sent or dropped,
-- and those that `deliver` has been run on. The program has no such fields.
pub record Dispatcher : Type 0 where
  pub receivers : Receivers
  pub queue : List Job
  pub dropped : ℕ
  pub stopping : Bool
  pub cancelled : Bool
  pub idle : ℕ
  pub busy : List Job
  pub gone : ℕ
  pub senders : List Sender
  pub offered : List Job
  pub delivered : List Job

-- `NewWithOptions`
unfoldable pub new_dispatcher : Receivers → Dispatcher
new_dispatcher receivers = record {
  receivers = receivers;
  queue = [];
  dropped = 0;
  stopping = false;
  cancelled = false;
  idle = max_workers;
  busy = [];
  gone = 0;
  senders = [];
  offered = [];
  delivered = [];
}

-- `Notify` up to its loop; it returns at once if there is no event, after `Stop`, and if the
-- webhooks cannot be listed.
unfoldable pub notify : Text → Run → String → Bool → Dispatcher → Dispatcher
unfolding list_webhooks text_eq
notify event run workspace_id lists d =
    if text_eq event [] || d.stopping || not lists then d else record d {
      senders =
          record {
            event = event;
            run = run;
            pending = list_webhooks workspace_id (some run.experiment_id) d.receivers.table;
            checked = false;
          }
          ∷ d.senders;
    }

abbrev pub sender_of : Text → Run → List Webhook → Bool → Sender
sender_of event run pending checked = record {
  event = event;
  run = run;
  pending = pending;
  checked = checked;
}

-- Stage 2 of the loop of `Notify`, whatever happened since stage 1: the job is sent, or dropped if the
-- queue is full.
unfoldable pub enqueue : Job → Sender → Dispatcher → Dispatcher
enqueue j rest d =
    let seen = d.offered ++ (j ∷ []) in
    if ltb (length d.queue) queue_capacity
    then record d { queue = d.queue ++ (j ∷ []); senders = rest ∷ d.senders; offered = seen }
    else record d { dropped = d.dropped + 1; senders = rest ∷ d.senders; offered = seen }

-- The body of the loop of `Notify`, on a dispatcher without the call itself, in two steps: up to stage
-- 1, the check of `stopCh`, and stage 2.
unfoldable pub send_next : Text → Run → List Webhook → Bool → Dispatcher → Dispatcher
unfolding matches_event enqueue
send_next event run [] checked d = d
send_next event run (w ∷ pending) true d =
    enqueue (record { webhook = w; event = event; run = run }) (sender_of event run pending false) d
send_next event run (w ∷ pending) false d =
    let j : Job = record { webhook = w; event = event; run = run } in
    if not w.enabled || not (matches_event w.events event)
    then record d { senders = sender_of event run pending false ∷ d.senders }
    else if d.stopping
    then record d { dropped = d.dropped + 1; offered = d.offered ++ (j ∷ []) }
    else record d { senders = sender_of event run (w ∷ pending) true ∷ d.senders }

-- The element at a place, and the others.
unfoldable pub pick {ℓ} : {A : Type ℓ} → ℕ → List A → Option (A × List A)
pick n [] = none
pick zero (x ∷ xs) = some (x, xs)
pick (suc n) (x ∷ xs) = elim (pick n xs) [ none ↦ none | some (y, rest) ↦ some (y, x ∷ rest) ]

unfoldable pub send_picked : Option (Sender × List Sender) → Dispatcher → Dispatcher
unfolding send_next
send_picked none d = d
send_picked (some (s, others)) d =
    send_next s.event s.run s.pending s.checked (record d { senders = others })

-- `case j := <-d.queue` of an idle worker.
abbrev pub take_from : ℕ → List Job → Dispatcher → Dispatcher
take_from (suc idle) (j ∷ queue) d = record d { idle = idle; queue = queue; busy = j ∷ d.busy }
take_from (suc idle) [] d = d
take_from zero _ d = d

-- A worker returns: once the context is done, or once `Stop` was called and the queue is empty.
abbrev pub leave_if : Bool → ℕ → Dispatcher → Dispatcher
leave_if true (suc idle) d = record d { idle = idle; gone = suc d.gone }
leave_if true zero d = d
leave_if false _ d = d

module _ (marshal : Payload → Option Text) (retry_base : ℕ) where
  -- A busy worker has run `deliver`. A wait is cut short only after `Stop`, or with the context.
  unfoldable pub finish_picked :
      (ℕ → Posted) → (ℕ → Bool) → (ℕ → ℕ) → Option (Job × List Job) → Dispatcher → Dispatcher
  unfolding deliver
  finish_picked posts cut clock none d = d
  finish_picked posts cut clock (some (j, others)) d =
      let interrupted = λ (i : ℕ). (d.stopping || d.cancelled) && cut i in
      record d {
        receivers = deliver marshal posts interrupted retry_base clock j d.receivers;
        busy = others;
        idle = suc d.idle;
        delivered = j ∷ d.delivered;
      }

  -- The sweep of `Stop`, when all workers have returned: the channel that cuts waits short is closed.
  unfoldable pub sweep_from : (ℕ → Posted) → (ℕ → ℕ) → List Job → Dispatcher → Dispatcher
  unfolding deliver
  sweep_from posts clock [] d = d
  sweep_from posts clock (j ∷ queue) d = record d {
    receivers = deliver marshal posts (λ _. true) retry_base clock j d.receivers;
    queue = queue;
    delivered = j ∷ d.delivered;
  }

  -- What a thread does next: a call of `Notify` begins, or goes through its loop once more; a worker
  -- takes a job, finishes one or returns; `Stop` is called, or sweeps a job; the context is done.
  pub data Action : Type 0 where
    notified : Text → Run → String → Bool → Action
    sent : ℕ → Action
    taken : Action
    finished : ℕ → (ℕ → Posted) → (ℕ → Bool) → (ℕ → ℕ) → Action
    left : Action
    stopped : Action
    swept : (ℕ → Posted) → (ℕ → ℕ) → Action
    ended : Action

  unfoldable pub act : Action → Dispatcher → Dispatcher
  unfolding notify send_picked pick finish_picked sweep_from
  act (notified event run workspace_id lists) d = notify event run workspace_id lists d
  act (sent i) d = send_picked (pick i d.senders) d
  act taken d = take_from d.idle d.queue d
  act (finished i posts cut clock) d = finish_picked posts cut clock (pick i d.busy) d
  act left d = leave_if (d.cancelled || (d.stopping && length d.queue == 0)) d.idle d
  act stopped d = record d { stopping = true }
  act (swept posts clock) d =
      if d.stopping && d.gone == max_workers then sweep_from posts clock d.queue d else d
  act ended d = record d { cancelled = true }

  -- The state after a schedule.
  unfoldable pub run_all : List Action → Dispatcher → Dispatcher
  unfolding act
  run_all [] d = d
  run_all (a ∷ actions) d = run_all actions (act a d)
