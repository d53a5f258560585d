-- ===== src/Webhooks/Subscription.antt =====
-- internal/webhooks/dispatcher.go and echo.go: the tests on statuses, subscriptions and addresses.
use litemlflow.Prelude.{
  String, Bool, false, ◌||◌, List, [], ◌∷◌, ◌++◌, if◌then◌else◌, str_eq, Text, codes, text_eq,
  has_prefix, split_on,
}
use litemlflow.Model.{status_running, status_finished, status_failed, status_killed}
use litemlflow.Model.Names.{trim_space}

abbrev pub event_run_started : Text
event_run_started = codes "run_started"

abbrev pub event_run_finished : Text
event_run_finished = codes "run_finished"

abbrev pub event_run_failed : Text
event_run_failed = codes "run_failed"

abbrev pub event_run_killed : Text
event_run_killed = codes "run_killed"

-- `StatusToEvent`
unfoldable pub status_to_event : String → Text
status_to_event status =
    if str_eq status status_running
    then event_run_started
    else if str_eq status status_finished
    then event_run_finished
    else if str_eq status status_failed
    then event_run_failed
    else if str_eq status status_killed
    then event_run_killed
    else []

-- The loop of `matchesEvent`.
unfoldable pub names_event : Text → List Text → Bool
unfolding trim_space text_eq
names_event event [] = false
names_event event (part ∷ parts) = text_eq (trim_space part) event || names_event event parts

-- `matchesEvent`
unfoldable pub matches_event : Text → Text → Bool
unfolding names_event split_on text_eq
matches_event events event =
    if text_eq events [] then false else names_event event (split_on b',' events)

-- `EchoSchemePrefix`
abbrev pub echo_scheme_prefix : Text
echo_scheme_prefix = codes "lmf://echo"

-- `IsEchoURL`
unfoldable pub is_echo_url : Text → Bool
unfolding text_eq has_prefix
is_echo_url url = text_eq url echo_scheme_prefix || has_prefix url (echo_scheme_prefix ++ codes "/")
