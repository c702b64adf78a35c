-- ===== src/Drill/Issue.antt =====
-- scripts/drill.py: the body of the issue of a drill, and the step finish.
use k8s_dr.Prelude.{
  ℕ, String, Bool, true, false, not, ◌&&◌, Option, none, some, List, [], ◌∷◌, ◌++◌, Error,
  drill_failed, Result, Done, ok, err, Exec, pure, raise, ask, catching, ◌>>=◌, ◌>>◌, if◌then◌else◌,
}
use k8s_dr.Text.{◌=ᵗ◌, ◌<>◌, join, empty}
use k8s_dr.Text.Decimal.{show}
use k8s_dr.Calendar.{set_name}
use k8s_dr.Watchdog.{is_status, or_text}
use k8s_dr.Watchdog
use k8s_dr.Report.{format_duration}
use k8s_dr.Report.Timeline.{read_events, timeline_table}
use k8s_dr.Drill.State.{
  Drill, DrillState, DrillSystem, Failure, RunNote, Measured, Ending, Step, in_world, set_state,
  save,
}
use k8s_dr.Drill.Commands.{now, push, post_url}
use k8s_dr.Drill.Main.{outcome, step_passed, has_text, is_empty}
use k8s_dr.Drill.Masking.{masked}

abbrev pub ending_text : Ending → String
ending_text Ending.refused = "refused"
ending_text Ending.missed = "missed"
ending_text Ending.failed = "failed"
ending_text Ending.passed = "passed"

-- A row of the table, for a value that is neither None nor empty.
abbrev row : String → Option String → List String
row name none = []
row name (some value) = if empty value then [] else ("| " <> name <> " | " <> value <> " |") ∷ []

abbrev url_of : Option RunNote → Option String
url_of none = none
url_of (some n) = some n.url

abbrev measure_rows : Option Measured → List String
measure_rows none = []
measure_rows (some r) =
    row "Detection" (some (format_duration r.detection_seconds))
    ++ row "Recovery time (target 4 h)" (some (format_duration r.recovery_seconds))
    ++ row "Data loss (target 2 h)" (some (format_duration r.data_loss_seconds))
    ++ row "Acknowledged writes lost" (some (show r.writes_lost))
    ++ row "Restored set and its age at isolation"
        (some (r.backup_set <> ", " <> format_duration r.backup_age_seconds))

abbrev first_probe : Option Measured → Option String
first_probe none = none
first_probe (some r) = some r.first_failed_probe

unfoldable pub rows : DrillState → List String
rows state =
    row "Isolated at" state.isolated_at
    ++ row "First failed probe" (first_probe state.result)
    ++ row "Recovery started by the watchdog" (url_of state.recovery_run)
    ++ measure_rows state.result
    ++ row "Dataset after the restore" state.dataset_restored
    ++ row "Return" (url_of state.return_run)

abbrev stopped_in : Option Failure → List String
stopped_in none = []
stopped_in (some f) = ("Stopped in `" <> f.step <> "`: " <> f.reason) ∷ "" ∷ []

abbrev pub is_passed : Ending → Bool
is_passed Ending.passed = true
is_passed _ = false

abbrev pub is_missed : Ending → Bool
is_missed Ending.missed = true
is_missed _ = false

abbrev no_run : Option RunNote → Bool
no_run none = true
no_run (some _) = false

abbrev failed_in : String → Option Failure → Bool
failed_in step none = false
failed_in step (some f) = f.step =ᵗ step

-- `state["return_failed"]`: the last failure of the return that is not the first of the drill.
unfoldable pub return_failure : List Failure → Option String
return_failure [] = none
return_failure (f ∷ fs) = elim (return_failure fs) [
  | some reason ↦ some reason
  | none ↦ if f.step =ᵗ "return" then some f.reason else none
]

abbrev return_failed_lines : Option String → List String
return_failed_lines none = []
return_failed_lines (some reason) = "" ∷ ("The return failed: " <> reason) ∷ []

-- How the drill left the primary.
pub data Closing : Type 0 where
  not_isolated restarted_without_run restarted_after_run missed_and_returned : Closing
  returned_without_report returned_after_failure not_returned nothing_to_add : Closing

-- The tests of `issue_body`, in their order.
unfoldable pub closing : DrillState → Ending → Closing
closing state ending =
    let returned = step_passed Step.return state.steps in
    if not (is_passed ending) && not (has_text state.isolated_at)
    then not_isolated
    else if has_text state.primary_restarted && no_run state.recovery_run
    then restarted_without_run
    else if has_text state.primary_restarted
    then restarted_after_run
    else if is_missed ending && returned
    then missed_and_returned
    else if not (is_passed ending) && returned && failed_in "report" state.failed
    then returned_without_report
    else if not (is_passed ending) && returned
    then returned_after_failure
    else if not (is_passed ending)
    then not_returned
    else nothing_to_add

abbrev closing_lines : DrillState → Closing → List String
closing_lines state not_isolated = "" ∷ "The primary was not isolated." ∷ []
closing_lines state restarted_without_run =
    ""
    ∷ ("No recovery started, so the drill started the primary VMs again at "
        <> or_text state.primary_restarted ""
        <> ". Read the watchdog runs since the isolation.")
    ∷ []
closing_lines state restarted_after_run =
    ""
    ∷ ("The recovery left no environment to return from, so the drill started the primary VMs again at "
        <> or_text state.primary_restarted ""
        <> ". The Recover run holds the failure.")
    ∷ []
closing_lines state missed_and_returned =
    "" ∷ "The recovery missed a target. The drill returned to the primary, which serves again." ∷ []
closing_lines state returned_without_report =
    ""
    ∷ "The recovery and the return passed, and the primary serves again. The report failed, so this drill's measurement is incomplete."
    ∷ []
closing_lines state returned_after_failure =
    ""
    ∷ "The recovery failed. The drill returned to the primary, which serves again. The Recover run holds the failure."
    ∷ []
closing_lines state not_returned =
    return_failed_lines (return_failure state.later_failures)
    ++ ""
      ∷ "The return did not finish, and the run state is kept for diagnosis. The guard refuses further drills until the primary serves and infra/recovery is empty."
      ∷ []
closing_lines state nothing_to_add = []

-- The stages, if the timeline was copied: a missing file has no table, an unreadable one raises.
abbrev stage_lines : Result String → Result (List String)
stage_lines (err e) = ok []
stage_lines (ok log) = elim (read_events log) [
  | ok events ↦ ok ("" ∷ "Recovery stages:" ∷ "" ∷ timeline_table events ∷ [])
  | err e ↦ err e
]

unfoldable pub body_text : DrillState → Ending → String → List String → String
body_text state ending run_url stages = join "\n" (
    ("Outcome: **" <> ending_text ending <> "**")
      ∷ ""
      ∷ ("Workflow run: " <> run_url)
      ∷ ""
      ∷ stopped_in state.failed
    ++ "| Measure | Value |" ∷ "| --- | --- |" ∷ rows state
    ++ stages
    ++ closing_lines state (closing state ending))

abbrev pub setup_failure : DrillState → DrillState
setup_failure s = record s {
  failed = some (record { step = "setup"; reason = "the job stopped before the guard" });
}

abbrev pub no_steps : Option Failure → Bool → Bool
no_steps none empty_steps = empty_steps
no_steps (some f) empty_steps = false

abbrev pub note_setup : DrillState → DrillState
note_setup s = if no_steps s.failed (is_empty s.steps) then setup_failure s else s

abbrev pub with_ending : List (String × String) → DrillState → DrillState
with_ending environ s = record s {
  outcome = some (outcome s);
  run_url = Watchdog.env_get "RUN_URL" environ;
  event = Watchdog.env_get "GITHUB_EVENT_NAME" environ;
}

abbrev pub worst : ℕ → Bool → ℕ
worst status opened = if opened then status else 1

abbrev pub title_of : DrillState → Ending → String
title_of s ending = "Drill " <> or_text s.id "None" <> ": " <> ending_text ending

module _ {W : Type 0} ⦃sys : DrillSystem W⦄ where
  -- `issue_body`.
  unfoldable pub issue_body : Ending → Exec (Drill W) String
  issue_body ending = do
    stages ← ask (λ m. stage_lines (sys.read_timeline m.world))
    state ← ask (λ m. ok m.state)
    let run_url = or_text (Watchdog.env_get "RUN_URL" sys.requests.environ) "unknown"
    pure (masked sys.requests.environ (body_text state ending run_url stages) <> "\n")

  -- A drill without an identity gets the time of its end.
  unfoldable pub name_drill : Option String → Exec (Drill W) Done
  name_drill (some id) = pure tt
  name_drill none = do t ← now; set_state (λ s. record s { id = some (set_name t) })

  unfoldable pub store_result : Exec (Drill W) Done
  store_result m = (ok tt, record m { stored_result = some m.state })

  -- The status of the copy: only a failed command is noted.
  unfoldable pub push_status : Error → Exec (Drill W) ℕ
  push_status (drill_failed _) = pure 1
  push_status e = raise e

  unfoldable pub pushed : Exec (Drill W) ℕ
  pushed = do push; pure 0

  unfoldable pub open_issue : Ending → Exec (Drill W) Bool
  open_issue ending = do
    body ← issue_body ending
    url ← post_url "issues"
    title ← ask (λ m. ok (title_of m.state ending))
    response ← in_world (sys.open_issue url title body)
    pure (is_status response.status 201)

  -- `finish`, with its exit status.
  unfoldable pub finish : Exec (Drill W) ℕ
  finish = do
    id ← ask (λ m. ok m.state.id)
    name_drill id
    set_state note_setup
    ending ← ask (λ m. ok (outcome m.state))
    set_state (with_ending sys.requests.environ)
    save
    store_result
    status ← catching pushed push_status
    opened ← open_issue ending
    pure (worst status opened)
