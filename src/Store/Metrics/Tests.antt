-- ===== src/Store/Metrics/Tests.antt =====
-- Three points of a metric, logged out of order and read two at a time.
use litemlflow.Prelude.{ℕ, true, List, [], ◌∷◌, none, ◌≡◌, refl, arith, ok, ℤ, pos, negsuc}
use litemlflow.Model.{Run, status_running, lifecycle_active, kind_classic}
use litemlflow.Store.Db.{Db}
use litemlflow.Store.Metrics.{Metric, MetricRow, log_metrics, get_metric_history}
use litemlflow.Store.Metrics.Points.{Logged}
use litemlflow.Store.Metrics.Pages.{read_pages, read_pages-get_metric_history}

abbrev point : ℕ → ℕ → ℤ → Metric ℕ
point value timestamp step = record {
  key = "loss";
  value = value;
  timestamp = pos timestamp;
  step = step;
}

abbrev row : ℕ → ℕ → ℤ → MetricRow ℕ
row value timestamp step = record { run_id = "r1"; metric = point value timestamp step }

abbrev run : Run
run = record {
  id = "r1";
  experiment_id = 7;
  name = "";
  status = status_running;
  start_time = 10;
  end_time = none;
  artifact_uri = "";
  lifecycle_stage = lifecycle_active;
  user_id = "";
  source_type = "";
  source_name = "";
  kind = kind_classic;
  parent_run_id = "";
}

abbrev db : Db
db = record { experiments = []; runs = run ∷ []; tags = []; params = []; events = [] }

-- A point without a timestamp gets the time of the clock; one that is there already is left out.
abbrev rows : List (MetricRow ℕ)
rows = row 4 30 (pos 2) ∷ row 9 30 (negsuc 0) ∷ row 5 20 (pos 1) ∷ []

stored :
    log_metrics {V = ℕ}
      (λ _. true)
      (λ _. pos 20)
      "r1"
      (point 4 30 (pos 2) ∷ point 9 30 (negsuc 0) ∷ point 5 0 (pos 1) ∷ point 7 20 (pos 1) ∷ [])
      db
      []
    ≡ ok rows
unfolding log_metrics
stored = refl

whole :
    get_metric_history "r1" "loss" 0 [] rows
    ≡ ok (row 5 20 (pos 1) ∷ row 9 30 (negsuc 0) ∷ row 4 30 (pos 2) ∷ [], [])
unfolding get_metric_history
whole = refl

read_pages-get_metric_history_example :
    read_pages 4 "r1" "loss" 2 [] rows
    ≡ ok (row 5 20 (pos 1) ∷ row 9 30 (negsuc 0) ∷ row 4 30 (pos 2) ∷ [])
read_pages-get_metric_history_example =
    read_pages-get_metric_history (λ _. true) "r1" "loss" rows
      (row 5 20 (pos 1) ∷ row 9 30 (negsuc 0) ∷ row 4 30 (pos 2) ∷ []) 4 1
      (Logged.logged (λ _. pos 20) "r1" _ db stored (Logged.nothing refl)) (omega arith) whole
      (omega arith)
