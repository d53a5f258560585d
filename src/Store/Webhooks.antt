-- ===== src/Store/Webhooks.antt =====
-- internal/store/sqlite_lineage.go: the table of webhooks. Rows are in the order of their ids, which
-- AUTOINCREMENT never uses again.
use litemlflow.Prelude.{
  ℕ, suc, String, Bool, true, List, [], ◌∷◌, ◌++◌, Option, none, some, ◌==◌, ◌&&◌, if◌then◌else◌,
  str_eq, Result, ok, err, not_found, find_row, any_row, select_rows, update_rows, delete_rows,
}
use litemlflow.Model.{Webhook}

pub record WebhookTable : Type 0 where
  pub rows : List Webhook
  pub last_id : ℕ

abbrev pub default_if_empty : String → String
default_if_empty s = if str_eq s "" then "default" else s

abbrev pub has_webhook_id : ℕ → Webhook → Bool
has_webhook_id id w = w.id == id

-- `CreateWebhook`: the id is the next of the table, and the columns on attempts are NULL.
unfoldable pub create_webhook : ℕ → Webhook → WebhookTable → ℕ × WebhookTable
create_webhook now w t =
    let id = suc t.last_id in
    let row = record w {
      id = id;
      created_at = if w.created_at == 0 then now else w.created_at;
      workspace_id = default_if_empty w.workspace_id;
      last_status = none;
      last_attempt = none;
    } in
    (id, record { rows = t.rows ++ (row ∷ []); last_id = id })

abbrev pub covers_experiment : Option ℕ → Option ℕ → Bool
covers_experiment none _ = true
covers_experiment (some experiment_id) none = true
covers_experiment (some experiment_id) (some id) = experiment_id == id

-- The WHERE of `ListWebhooks`; without an experiment it is on the workspace alone.
abbrev pub is_listed : String → Option ℕ → Webhook → Bool
is_listed workspace_id exp_id w =
    str_eq w.workspace_id (default_if_empty workspace_id)
    && covers_experiment w.experiment_id exp_id

-- `ListWebhooks`
unfoldable pub list_webhooks : String → Option ℕ → WebhookTable → List Webhook
unfolding select_rows
list_webhooks workspace_id exp_id t = select_rows (is_listed workspace_id exp_id) t.rows

abbrev pub found_or_not : Option Webhook → Result Webhook
found_or_not none = err not_found
found_or_not (some w) = ok w

-- `GetWebhook`
unfoldable pub get_webhook : ℕ → WebhookTable → Result Webhook
unfolding find_row
get_webhook id t = found_or_not (find_row (has_webhook_id id) t.rows)

abbrev pub set_webhook_fields : Webhook → Webhook → Webhook
set_webhook_fields w row = record row {
  name = w.name;
  url = w.url;
  events = w.events;
  experiment_id = w.experiment_id;
  workspace_id = w.workspace_id;
  secret = w.secret;
  enabled = w.enabled;
}

-- `UpdateWebhook`
unfoldable pub update_webhook : Webhook → WebhookTable → Result WebhookTable
unfolding any_row update_rows
update_webhook w t =
    if any_row (has_webhook_id w.id) t.rows
    then ok (record t { rows = update_rows (has_webhook_id w.id) (set_webhook_fields w) t.rows })
    else err not_found

-- `DeleteWebhook`
unfoldable pub delete_webhook : ℕ → WebhookTable → Result WebhookTable
unfolding any_row delete_rows
delete_webhook id t =
    if any_row (has_webhook_id id) t.rows
    then ok (record t { rows = delete_rows (has_webhook_id id) t.rows })
    else err not_found

abbrev pub with_attempt : ℕ → ℕ → Webhook → Webhook
with_attempt status attempt w = record w { last_status = some status; last_attempt = some attempt }

-- `RecordWebhookAttempt`
unfoldable pub record_webhook_attempt : ℕ → ℕ → ℕ → WebhookTable → WebhookTable
unfolding update_rows
record_webhook_attempt id status attempt t = record t {
  rows = update_rows (has_webhook_id id) (with_attempt status attempt) t.rows;
}
