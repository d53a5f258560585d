-- ===== src/Webhooks/Dispatcher/Schedules.antt =====
-- No delivery is lost or made twice, whatever the schedule of the threads.
use litemlflow.Prelude.{
  ℕ, zero, suc, Bool, true, false, ◌&&◌, ◌||◌, List, [], ◌∷◌, Option, ◌≡◌, refl, ap, inl, inr, ◌==◌,
  length, arith, All, Bool-cases, Option-cases, Text,
}
use litemlflow.Webhooks.Delivery.{Job, Payload, Posted, Receivers}
use litemlflow.Webhooks.Dispatcher.{
  Dispatcher, Action, notified, sent, taken, finished, left, stopped, swept, ended, new_dispatcher,
  pick, take_from, leave_if, finish_picked, sweep_from, act, run_all, max_workers,
}
use litemlflow.Webhooks.Dispatcher.Counting.{count, pick-Picked}
use litemlflow.Webhooks.Dispatcher.Ledger.{IsWanted, Balanced, new_dispatcher-Balanced, with_flags}
use litemlflow.Webhooks.Dispatcher.Sends.{notify-Balanced, send_picked-Balanced}

take_from-Balanced :
    (idle : ℕ) (queue : List Job) (d : Dispatcher)
    → d.idle ≡ idle
    → d.queue ≡ queue
    → Balanced d
    → Balanced (take_from idle queue d)
take_from-Balanced zero _ d e₁ e₂ b = b
take_from-Balanced (suc idle) [] d e₁ e₂ b = b
take_from-Balanced (suc idle) (j ∷ queue) d e₁ e₂ b =
    let wanted : All IsWanted (j ∷ queue) = rw e₂ at b.queue_wanted in
    record {
      total = omega (arith, b.total, ap length e₂);
      each = λ p. omega (arith, b.each p, ap (count p) e₂);
      bounded = omega (arith, b.bounded, ap length e₂);
      crew = omega (arith, b.crew);
      queue_wanted = wanted.1;
      busy_wanted = (wanted.0, b.busy_wanted);
      delivered_wanted = b.delivered_wanted;
      senders_cover = b.senders_cover;
    }

leave_if-Balanced :
    (may : Bool) (idle : ℕ) (d : Dispatcher)
    → d.idle ≡ idle
    → Balanced d
    → Balanced (leave_if may idle d)
leave_if-Balanced false _ d e b = b
leave_if-Balanced true zero d e b = b
leave_if-Balanced true (suc idle) d e b = record {
  total = b.total;
  each = b.each;
  bounded = b.bounded;
  crew = omega (arith, b.crew);
  queue_wanted = b.queue_wanted;
  busy_wanted = b.busy_wanted;
  delivered_wanted = b.delivered_wanted;
  senders_cover = b.senders_cover;
}

module _ (marshal : Payload → Option Text) (retry_base : ℕ) where
  finish_picked-Balanced :
      (i : ℕ) (posts : ℕ → Posted) (cut : ℕ → Bool) (clock : ℕ → ℕ) (d : Dispatcher)
      → Balanced d
      → Balanced (finish_picked marshal retry_base posts cut clock (pick i d.busy) d)
  unfolding finish_picked
  finish_picked-Balanced i posts cut clock d b = elim (Option-cases (pick i d.busy)) [
    | inl nothing ↦ rw nothing b
    | inr ((j, others), found) ↦
        let k = pick-Picked IsWanted i d.busy j others b.busy_wanted found in
        rw found record {
          total = omega (arith, b.total, k.shorter);
          each = λ p. omega (arith, b.each p, k.counted p);
          bounded = b.bounded;
          crew = omega (arith, b.crew, k.shorter);
          queue_wanted = b.queue_wanted;
          busy_wanted = k.others;
          delivered_wanted = (k.holds, b.delivered_wanted);
          senders_cover = b.senders_cover;
        }
  ]

  sweep_from-Balanced :
      (posts : ℕ → Posted) (clock : ℕ → ℕ) (queue : List Job) (d : Dispatcher)
      → d.queue ≡ queue
      → Balanced d
      → Balanced (sweep_from marshal retry_base posts clock queue d)
  unfolding sweep_from
  sweep_from-Balanced posts clock [] d e b = b
  sweep_from-Balanced posts clock (j ∷ queue) d e b =
      let wanted : All IsWanted (j ∷ queue) = rw e at b.queue_wanted in
      record {
        total = omega (arith, b.total, ap length e);
        each = λ p. omega (arith, b.each p, ap (count p) e);
        bounded = omega (arith, b.bounded, ap length e);
        crew = b.crew;
        queue_wanted = wanted.1;
        busy_wanted = b.busy_wanted;
        delivered_wanted = (wanted.0, b.delivered_wanted);
        senders_cover = b.senders_cover;
      }

  act-Balanced :
      (a : Action marshal retry_base) (d : Dispatcher)
      → Balanced d
      → Balanced (act marshal retry_base a d)
  unfolding act
  act-Balanced (notified event run workspace_id lists) d b =
      notify-Balanced event run workspace_id lists d b
  act-Balanced (sent i) d b = send_picked-Balanced i d b
  act-Balanced taken d b = take_from-Balanced d.idle d.queue d refl refl b
  act-Balanced (finished i posts cut clock) d b = finish_picked-Balanced i posts cut clock d b
  act-Balanced left d b =
      leave_if-Balanced (d.cancelled || (d.stopping && length d.queue == 0)) d.idle d refl b
  act-Balanced stopped d b = with_flags true d.cancelled d b
  act-Balanced (swept posts clock) d b = elim (Bool-cases (d.stopping && d.gone == max_workers)) [
    | inl over ↦ rw over (sweep_from-Balanced posts clock d.queue d refl b)
    | inr on ↦ rw on b
  ]
  act-Balanced ended d b = with_flags d.stopping true d b

  run_all_from :
      (actions : List (Action marshal retry_base)) (d : Dispatcher)
      → Balanced d
      → Balanced (run_all marshal retry_base actions d)
  unfolding run_all
  run_all_from [] d b = b
  run_all_from (a ∷ actions) d b =
      run_all_from actions (act marshal retry_base a d) (act-Balanced a d b)

  -- In every state that the dispatcher reaches, whatever order its threads take their steps in: the
  -- offered jobs are as many as those delivered, in delivery, queued and dropped together, and no
  -- job is delivered, in delivery or queued more often than it was offered. The queue holds at most
  -- 1024 jobs and the workers are eight. Every job is for an enabled webhook that subscribes to its
  -- event and covers the run's experiment.
  pub run_all-Balanced :
      (receivers : Receivers) (actions : List (Action marshal retry_base))
      → Balanced (run_all marshal retry_base actions (new_dispatcher receivers))
  run_all-Balanced receivers actions =
      run_all_from actions (new_dispatcher receivers) (new_dispatcher-Balanced receivers)
