-- ===== src/Webhooks/Tests.antt =====
-- The theorems on webhooks at concrete deliveries.
use litemlflow.Prelude.{
  ℕ, true, false, List, [], ◌∷◌, none, some, ◌≡◌, refl, ◌==◌, if◌then◌else◌, Text, codes, length,
}
use litemlflow.Model.{Webhook, Run, status_running, lifecycle_active, kind_classic}
use litemlflow.Webhooks.Subscription.{event_run_finished}
use litemlflow.Webhooks.Echo.{list_entries}
use litemlflow.Webhooks.Echo.Recent.{
  Delivered, history, record_all, recent, list_entries-record_all,
}
use litemlflow.Webhooks.Delivery.{Payload, Posted, Receivers, send}
use litemlflow.Webhooks.Delivery.Retries.{Ends, send-Ends}
use litemlflow.Webhooks.Dispatcher.{
  Dispatcher, Action, notified, sent, taken, finished, left, stopped, swept, new_dispatcher,
  run_all,
}
use litemlflow.Webhooks.Dispatcher.Ledger.{Balanced}
use litemlflow.Webhooks.Dispatcher.Schedules.{run_all-Balanced}

abbrev entry : ℕ → Delivered
entry n = record {
  now = n;
  entry = record {
    timestamp = 0;
    event = event_run_finished;
    webhook_id = n;
    body = codes "{}";
    run_id = "r1";
  };
}

abbrev deliveries : List Delivered
deliveries = entry 4 ∷ entry 3 ∷ entry 2 ∷ entry 1 ∷ []

list_entries-record_all_example :
    list_entries 2 (record_all 3 deliveries) ≡ recent 3 2 (history deliveries)
list_entries-record_all_example = list_entries-record_all 3 2 deliveries

-- Two failures, and then a success.
abbrev answers : ℕ → Posted
answers n =
    if n == 2
    then record { status = 204; failing = false }
    else record { status = 503; failing = false }

send-Ends_example : Ends answers (λ _. false) 1000 (send answers (λ _. false) 1000)
send-Ends_example = send-Ends answers (λ _. false) 1000

send_third :
    send answers (λ _. false) 1000 ≡ record { posts_made = 3; waited = 6000; outcome = some 204 }
unfolding send
send_third = refl

abbrev run : Run
run = record {
  id = "r1";
  experiment_id = 7;
  name = "";
  status = status_running;
  start_time = 10;
  end_time = none;
  artifact_uri = "";
  lifecycle_stage = lifecycle_active;
  user_id = "";
  source_type = "";
  source_name = "";
  kind = kind_classic;
  parent_run_id = "";
}

abbrev webhook : ℕ → Text → Webhook
webhook id events = record {
  id = id;
  name = "hook";
  url = codes "https://example.org/hook";
  events = events;
  experiment_id = some 7;
  workspace_id = "default";
  secret = "";
  created_at = 5;
  last_status = none;
  last_attempt = none;
  enabled = true;
}

abbrev receivers : Receivers
receivers = record {
  table = record {
    rows =
        webhook 1 (codes "run_failed, run_finished")
        ∷ webhook 2 (codes "run_started")
        ∷ webhook 3 (codes "run_finished")
        ∷ [];
    last_id = 3;
  };
  echo = none;
}

abbrev marshal : Payload → Text
marshal p = p.event

-- One delivery by a worker; `Stop` is called, and all workers return, between the check and the send
-- of a second job, which then stays in the queue; and a call after `Stop`.
abbrev schedule : List (Action (λ p. some (marshal p)) 1000)
schedule =
    notified event_run_finished run "" true
    ∷ sent 0
    ∷ sent 0
    ∷ taken
    ∷ sent 0
    ∷ sent 0
    ∷ stopped
    ∷ finished 0 answers (λ _. true) (λ _. 40)
    ∷ left
    ∷ left
    ∷ left
    ∷ left
    ∷ left
    ∷ left
    ∷ left
    ∷ left
    ∷ swept answers (λ _. 50)
    ∷ sent 0
    ∷ notified event_run_finished run "" true
    ∷ []

run_all-Balanced_example :
    Balanced (run_all (λ p. some (marshal p)) 1000 schedule (new_dispatcher receivers))
run_all-Balanced_example = run_all-Balanced (λ p. some (marshal p)) 1000 receivers schedule

-- What is left: a job in the queue that no worker takes, one whose retry was cut short, and nothing
-- that was counted as dropped.
abbrev end_state : Dispatcher
end_state = run_all (λ p. some (marshal p)) 1000 schedule (new_dispatcher receivers)

end_counts :
    (length end_state.queue ≡ 1)
    × (length end_state.delivered ≡ 1)
    × (length end_state.offered ≡ 2)
    × (end_state.dropped ≡ 0)
    × (end_state.gone ≡ 8)
unfolding run_all new_dispatcher
end_counts = (refl, refl, refl, refl, refl)
