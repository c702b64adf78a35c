-- ===== src/Drill/Returning.antt =====
-- scripts/drill.py: the step return, and the state of the recovery that it and the report read.
use k8s_dr.Prelude.{
  ℕ, zero, suc, ◌+◌, ◌-◌, String, Bool, true, false, not, ◌&&◌, ◌||◌, Option, none, some, Error,
  drill_failed, value_error, Result, Done, ok, Exec, pure, raise, raise_if, ask, catching, ◌>>=◌,
  ◌>>◌, ltb, ◌==◌, if◌then◌else◌,
}
use k8s_dr.Text.{empty}
use k8s_dr.Watchdog.{is_status}
use k8s_dr.Recovery.State.{State}
use k8s_dr.Recovery.Run.{Stage, same_stage}
use k8s_dr.Recovery.Runner.{has_passed}
use k8s_dr.Report.{and_then}
use k8s_dr.Drill.State.{Drill, DrillSystem, in_world}
use k8s_dr.Drill.Commands.{parse, now, runs_since, post_url, copy_recovery_file, only_warn}
use k8s_dr.Drill.Waits.{
  return_run, wait_rounds, rounds_of, return_timeout, clock_skew, has_run, isolated_text,
  restart_primary,
}

-- Only a recovery that started at or after the isolation counts.
abbrev pub of_this_drill : Result ℕ → State Stage → Result (Option (State Stage))
of_this_drill isolation recovered = elim recovered.started [
  | none ↦ ok none
  | some text ↦
      and_then (parse text)
        λ t. and_then isolation λ isolated. ok (if ltb t isolated then none else some recovered)
]

abbrev is_recorded : Option String → Bool
is_recorded none = false
is_recorded (some address) = not (empty address)

-- The precondition of scripts/return_to_primary.py.
unfoldable pub has_environment : State Stage → Bool
has_environment recovered =
    has_passed same_stage Stage.provisioning recovered.passed
    && is_recorded recovered.values.recovery_address

module _ {W : Type 0} ⦃sys : DrillSystem W⦄ where
  unfoldable pub recovery_state : Exec (Drill W) (Option (State Stage))
  recovery_state = do
    copy_recovery_file "recover.json"
    recovered ← ask (λ m. sys.read_recovered m.world)
    ask (λ m. of_this_drill (and_then (isolated_text m.state.isolated_at) parse) recovered)

  -- `except (DrillFailed, ValueError)`.
  unfoldable pub or_no_state : Error → Exec (Drill W) (Option (State Stage))
  or_no_state (drill_failed _) = pure none
  or_no_state (value_error _) = pure none
  or_no_state e = raise e

  unfoldable pub environment_of : Option (State Stage) → Exec (Drill W) Bool
  environment_of none = pure false
  environment_of (some recovered) = do
    catching (copy_recovery_file "timeline.tsv") only_warn
    pure (has_environment recovered)

  unfoldable pub recovery_environment : Exec (Drill W) Bool
  recovery_environment = do
    recovered ← catching recovery_state or_no_state
    environment_of recovered

  -- One attempt of `dispatch_return`: whether the dispatch was accepted.
  unfoldable pub post_return : Exec (Drill W) Bool
  post_return = do
    url ← post_url "actions/workflows/return.yml/dispatches"
    response ← in_world (sys.requests.post url)
    pure (is_status response.status 200 || is_status response.status 204)

  -- A dispatch whose answer was lost may still have started a run; the first attempt does not look.
  unfoldable pub already_started : Bool → ℕ → Exec (Drill W) Bool
  already_started true since = pure false
  already_started false since = do runs ← runs_since "return.yml" since; pure (has_run runs)

  -- A dispatch that failed: the third one fails the step.
  unfoldable pub retry : ℕ → Exec (Drill W) Done → Exec (Drill W) Done
  retry left rest = do
    raise_if (left == 0) (drill_failed "dispatching the return failed 3 times")
    in_world (λ w. (tt, sys.commands.sleep 30 w))
    rest

  unfoldable pub post_or_retry : ℕ → Exec (Drill W) Done → Exec (Drill W) Done
  post_or_retry left rest = do accepted ← post_return; if accepted then pure tt else retry left rest

  -- The attempts that are left; `first` marks the first one.
  unfoldable pub attempts : ℕ → Bool → ℕ → Exec (Drill W) Done
  attempts zero first since = pure tt
  attempts (suc left) first since =
      let rest = attempts left false since in
      do started ← already_started first since; if started then pure tt else post_or_retry left rest

  unfoldable pub dispatch_return : Exec (Drill W) Done
  dispatch_return = do
    dispatched ← now
    attempts 3 true (dispatched - clock_skew)
    wait_rounds (rounds_of (return_timeout + clock_skew)) "return.yml" (dispatched - clock_skew)
        (dispatched + return_timeout) return_run none

  unfoldable pub end_on_primary : Bool → Exec (Drill W) Done
  end_on_primary true = dispatch_return
  end_on_primary false = restart_primary

  -- `return_`.
  unfoldable pub return_step : Exec (Drill W) Done
  return_step = do found ← recovery_environment; end_on_primary found
