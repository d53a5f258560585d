-- ===== src/Webhooks/Dispatcher/Sends.antt =====
-- The calls of Notify keep the books balanced.
use litemlflow.Prelude.{
  ℕ, String, Bool, true, false, not, ◌||◌, List, [], ◌∷◌, some, ◌≡◌, inl, inr, ltb, length, arith,
  All, Bool-cases, &&-both, text_eq, Option-cases, Text, select_rows,
}
use litemlflow.Model.{Webhook, Run}
use litemlflow.Store.Webhooks.{list_webhooks, covers_experiment, is_listed}
use litemlflow.Webhooks.Subscription.{matches_event}
use litemlflow.Webhooks.Delivery.{Job}
use litemlflow.Webhooks.Dispatcher.{
  Dispatcher, Sender, sender_of, notify, enqueue, send_next, pick, send_picked, queue_capacity,
}
use litemlflow.Webhooks.Dispatcher.Counting.{pick-Picked}
use litemlflow.Webhooks.Dispatcher.Ledger.{
  IsWanted, IsChecked, Covers, Balanced, with_sender, refused, accepted, with_flags, without_sender,
}

select_rows-covers :
    (workspace_id : String) (run : Run) (rows : List Webhook)
    → All
        (λ w. covers_experiment w.experiment_id (some run.experiment_id) ≡ true)
        (select_rows (is_listed workspace_id (some run.experiment_id)) rows)
unfolding select_rows
select_rows-covers workspace_id run [] = tt
select_rows-covers workspace_id run (w ∷ rows) =
    elim (Bool-cases (is_listed workspace_id (some run.experiment_id) w)) [
      | inl listed ↦ rw listed ((&&-both _ _ listed).1, select_rows-covers workspace_id run rows)
      | inr other ↦ rw other (select_rows-covers workspace_id run rows)
    ]

pub notify-Balanced :
    (event : Text) (run : Run) (workspace_id : String) (lists : Bool) (d : Dispatcher)
    → Balanced d
    → Balanced (notify event run workspace_id lists d)
unfolding notify list_webhooks
notify-Balanced event run workspace_id lists d b =
    elim (Bool-cases (text_eq event [] || d.stopping || not lists)) [
      | inl no_call ↦ rw no_call b
      | inr call ↦
          rw call
            (with_sender d b _ (select_rows-covers workspace_id run d.receivers.table.rows, tt))
    ]

enqueue-Balanced :
    (j : Job) (rest : Sender) (d : Dispatcher)
    → IsWanted j
    → Covers rest
    → Balanced d
    → Balanced (enqueue j rest d)
unfolding enqueue
enqueue-Balanced j rest d wanted covers b =
    elim (Bool-cases (ltb (length d.queue) queue_capacity)) [
      | inl room ↦ rw room (
          with_flags d.stopping d.cancelled _
            (with_sender _ (accepted d b j wanted (ground arith)) rest covers))
      | inr full ↦
          rw full (with_flags d.stopping d.cancelled _ (with_sender _ (refused d b j) rest covers))
    ]

send_next-Balanced :
    (event : Text) (run : Run) (pending : List Webhook) (checked : Bool) (d : Dispatcher)
    → Covers (sender_of event run pending checked)
    → Balanced d
    → Balanced (send_next event run pending checked d)
unfolding send_next
send_next-Balanced event run [] checked d covers b = b
send_next-Balanced event run (w ∷ pending) true d ((covered, others), (enabled, subscribed)) b =
    enqueue-Balanced (record { webhook = w; event = event; run = run })
      (sender_of event run pending false) d
      (record { enabled = enabled; subscribed = subscribed; covered = covered }) (others, tt) b
send_next-Balanced event run (w ∷ pending) false d ((covered, others), _) b =
    let j : Job = record { webhook = w; event = event; run = run } in
    elim (Bool-cases (not w.enabled || not (matches_event w.events event))) [
      | inl unwanted ↦
          rw unwanted (with_sender d b (sender_of event run pending false) (others, tt))
      | inr wanted ↦ elim (Bool-cases d.stopping) [
        | inl shut ↦ rw (wanted, shut) (with_flags true d.cancelled _ (refused d b j))
        | inr on ↦
            let good : IsChecked true event (w ∷ pending) = (ground arith, ground arith) in
            rw (wanted, on)
              (with_flags false d.cancelled _ (
                with_sender d b (sender_of event run (w ∷ pending) true) ((covered, others), good)))
      ]
    ]

pub send_picked-Balanced :
    (i : ℕ) (d : Dispatcher) → Balanced d → Balanced (send_picked (pick i d.senders) d)
unfolding send_picked
send_picked-Balanced i d b = elim (Option-cases (pick i d.senders)) [
  | inl nothing ↦ rw nothing b
  | inr ((s, others), found) ↦
      let k = pick-Picked Covers i d.senders s others b.senders_cover found in
      rw found (
        send_next-Balanced s.event s.run s.pending s.checked (record d { senders = others }) k.holds
          (without_sender d others b k.others))
]
