-- ===== src/Webhooks/Dispatcher/Ledger.antt =====
-- The books of the dispatcher, and the changes that keep them balanced.
use litemlflow.Prelude.{
  ◌+◌, ◌≤◌, ◌<◌, Text, Bool, true, false, List, [], ◌∷◌, ◌++◌, some, ◌≡◌, refl, length,
  length-append, arith, All, All-append,
}
use litemlflow.Model.{Webhook}
use litemlflow.Store.Webhooks.{covers_experiment}
use litemlflow.Webhooks.Subscription.{matches_event}
use litemlflow.Webhooks.Delivery.{Job, Receivers}
use litemlflow.Webhooks.Dispatcher.{Dispatcher, Sender, new_dispatcher, queue_capacity, max_workers}
use litemlflow.Webhooks.Dispatcher.Counting.{count, count-append_one}

-- A job that is to be delivered: the webhook is enabled, subscribes to the event, and is for the
-- run's experiment or for all.
pub record IsWanted (j : Job) : Type 0 where
  pub enabled : j.webhook.enabled ≡ true
  pub subscribed : matches_event j.webhook.events j.event ≡ true
  pub covered : covers_experiment j.webhook.experiment_id (some j.run.experiment_id) ≡ true

-- A call that is about to send has found the webhook enabled and subscribed.
abbrev pub IsChecked : Bool → Text → List Webhook → Type 0
IsChecked false event pending = Unit
IsChecked true event [] = Unit
IsChecked true event (w ∷ pending) = (w.enabled ≡ true) × (matches_event w.events event ≡ true)

abbrev pub Covers : Sender → Type 0
Covers s =
    All (λ w. covers_experiment w.experiment_id (some s.run.experiment_id) ≡ true) s.pending
    × IsChecked s.checked s.event s.pending

-- Every job that was offered has been delivered, is being delivered, waits in the queue, or was
-- dropped and counted; and none stands in two of these places.
pub record Balanced (d : Dispatcher) : Type 0 where
  pub total : length d.offered ≡ length d.delivered + length d.busy + length d.queue + d.dropped
  pub each :
      (p : Job → Bool) → count p d.delivered + count p d.busy + count p d.queue ≤ count p d.offered
  pub bounded : length d.queue ≤ queue_capacity
  pub crew : d.idle + length d.busy + d.gone ≡ max_workers
  pub queue_wanted : All IsWanted d.queue
  pub busy_wanted : All IsWanted d.busy
  pub delivered_wanted : All IsWanted d.delivered
  pub senders_cover : All Covers d.senders

pub new_dispatcher-Balanced : (r : Receivers) → Balanced (new_dispatcher r)
unfolding new_dispatcher
new_dispatcher-Balanced r = record {
  total = refl;
  each = λ p. omega arith;
  bounded = omega arith;
  crew = refl;
  queue_wanted = tt;
  busy_wanted = tt;
  delivered_wanted = tt;
  senders_cover = tt;
}

module _ (d : Dispatcher) (b : Balanced d) where
  pub with_sender : (s : Sender) → Covers s → Balanced (record d { senders = s ∷ d.senders })
  with_sender s covers = record {
    total = b.total;
    each = b.each;
    bounded = b.bounded;
    crew = b.crew;
    queue_wanted = b.queue_wanted;
    busy_wanted = b.busy_wanted;
    delivered_wanted = b.delivered_wanted;
    senders_cover = (covers, b.senders_cover);
  }

  pub refused :
      (j : Job) → Balanced (record d { dropped = d.dropped + 1; offered = d.offered ++ (j ∷ []) })
  refused j = record {
    total = omega (arith, length-append {0} d.offered (j ∷ []), b.total);
    each = λ p. omega (arith, count-append_one {0} p d.offered j, b.each p);
    bounded = b.bounded;
    crew = b.crew;
    queue_wanted = b.queue_wanted;
    busy_wanted = b.busy_wanted;
    delivered_wanted = b.delivered_wanted;
    senders_cover = b.senders_cover;
  }

  pub accepted :
      (j : Job)
      → IsWanted j
      → length d.queue < queue_capacity
      → Balanced (record d { queue = d.queue ++ (j ∷ []); offered = d.offered ++ (j ∷ []) })
  accepted j wanted room = record {
    total =
        omega (
          arith,
          length-append {0} d.offered (j ∷ []),
          length-append {0} d.queue (j ∷ []),
          b.total,
        );
    each = λ p.
        omega
          (arith, count-append_one {0} p d.offered j, count-append_one {0} p d.queue j, b.each p);
    bounded = omega (arith, length-append {0} d.queue (j ∷ []));
    crew = b.crew;
    queue_wanted = All-append IsWanted d.queue (j ∷ []) b.queue_wanted (wanted, tt);
    busy_wanted = b.busy_wanted;
    delivered_wanted = b.delivered_wanted;
    senders_cover = b.senders_cover;
  }

pub with_flags :
    (stopping cancelled : Bool) (d : Dispatcher)
    → Balanced d
    → Balanced (record d { stopping = stopping; cancelled = cancelled })
with_flags stopping cancelled d b = record {
  total = b.total;
  each = b.each;
  bounded = b.bounded;
  crew = b.crew;
  queue_wanted = b.queue_wanted;
  busy_wanted = b.busy_wanted;
  delivered_wanted = b.delivered_wanted;
  senders_cover = b.senders_cover;
}

pub without_sender :
    (d : Dispatcher) (others : List Sender)
    → Balanced d
    → All Covers others
    → Balanced (record d { senders = others })
without_sender d others b h = record {
  total = b.total;
  each = b.each;
  bounded = b.bounded;
  crew = b.crew;
  queue_wanted = b.queue_wanted;
  busy_wanted = b.busy_wanted;
  delivered_wanted = b.delivered_wanted;
  senders_cover = h;
}
