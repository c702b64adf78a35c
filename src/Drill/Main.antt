-- ===== src/Drill/Main.antt =====
-- scripts/drill.py: which command may run, what `main` keeps of its end, and the outcome of the drill.
use k8s_dr.Prelude.{
  ℕ, String, Bool, true, false, not, ◌&&◌, ◌||◌, Option, none, some, List, [], ◌∷◌, ◌++◌, Error,
  message, drill_failed, no_start, value_error, key_error, os_error, Result, Done, ok, err, Exec,
  pure, raise, ◌>>=◌, ◌>>◌, all, take, if◌then◌else◌,
}
use k8s_dr.Text.{◌=ᵗ◌}
use k8s_dr.Calendar.{set_name}
use k8s_dr.Drill.Guard
use k8s_dr.Drill.Waits
use k8s_dr.Drill.Measure
use k8s_dr.Drill.Returning
use k8s_dr.Drill.Commands.{now, try_push}
use k8s_dr.Drill.State.{
  Measured, Ending, Drill, DrillState, DrillSystem, Failure, Step, steps, step_index, step_name,
  same_step, set_state, save,
}

-- `self.state["steps"].get(step) == "passed"`; the newest entry of a step comes first.
unfoldable pub step_passed : Step → List (Step × Bool) → Bool
step_passed s [] = false
step_passed s ((t, passed) ∷ rest) =
    let later = step_passed s rest in if same_step s t then passed else later

abbrev pub step_has_passed : DrillState → Step → Bool
step_has_passed state s = step_passed s state.steps

abbrev pub has_failed : Option Failure → Bool
has_failed none = false
has_failed (some _) = true

abbrev pub has_text : Option String → Bool
has_text none = false
has_text (some t) = not (t =ᵗ "")

abbrev pub is_empty : List (Step × Bool) → Bool
is_empty [] = true
is_empty (_ ∷ _) = false

-- What `main` does with a command: it runs the step, has nothing to do, or refuses.
pub data Gate : Type 0 where
  run_it nothing_to_do refuse : Gate

abbrev pub later_gate : DrillState → Step → Gate
later_gate state s =
    if has_failed state.failed || not (all (step_has_passed state) (take (step_index s) steps))
    then Gate.refuse
    else Gate.run_it

unfoldable pub gate : DrillState → Step → Gate
gate state Step.guard = if is_empty state.steps then Gate.run_it else Gate.refuse
gate state Step.return =
    if not (has_text state.isolated_at) || has_text state.primary_restarted
    then Gate.nothing_to_do
    else Gate.run_it
gate state s = later_gate state s

-- `except (DrillFailed, NoStart, OSError, ValueError, KeyError, TypeError)`.
abbrev pub step_catches : Error → Bool
step_catches (drill_failed _) = true
step_catches (no_start _) = true
step_catches (os_error _) = true
step_catches (value_error _) = true
step_catches (key_error _) = true
step_catches _ = false

abbrev pub step_ended : Step → Bool → DrillState → DrillState
step_ended s passed state = record state { steps = (s, passed) ∷ state.steps }

-- The first failure is the one that the issue names; a later one has a key of its own.
abbrev pub note_failed : Failure → DrillState → Option Failure → DrillState
note_failed f state none = record state { failed = some f }
note_failed f state (some _) = record state { later_failures = state.later_failures ++ f ∷ [] }

abbrev pub failure_of : Step → Error → Failure
failure_of s e = record { step = step_name s; reason = message e }

abbrev pub missed_target : Option Measured → Bool
missed_target none = false
missed_target (some result) = not result.met

abbrev pub outcome_of : Option Failure → Option Measured → Bool → Ending
outcome_of none result returned = if returned then Ending.passed else Ending.failed
outcome_of (some f) result returned =
    if f.step =ᵗ "setup" || f.step =ᵗ "guard"
    then Ending.refused
    else if f.step =ᵗ "report" && missed_target result
    then Ending.missed
    else Ending.failed

unfoldable pub outcome : DrillState → Ending
outcome state = outcome_of state.failed state.result (step_passed Step.return state.steps)

module _ {W : Type 0} ⦃sys : DrillSystem W⦄ where
  -- COMMANDS.
  unfoldable pub action : Step → Exec (Drill W) Done
  action Step.guard = Guard.guard
  action Step.writes = Guard.writes
  action Step.isolate = Waits.isolate
  action Step.wait = Waits.wait_step
  action Step.report = Measure.report
  action Step.return = Returning.return_step

  unfoldable pub keep_failure : Step → Error → Exec (Drill W) ℕ
  keep_failure s e = do
    set_state (λ state. step_ended s false (note_failed (failure_of s e) state state.failed))
    save
    try_push
    pure 1

  unfoldable pub keep_success : Step → Exec (Drill W) ℕ
  keep_success s = do set_state (step_ended s true); save; try_push; pure 0

  abbrev pub ended : Step → Result Done → Exec (Drill W) ℕ
  ended s (ok _) = keep_success s
  ended s (err e) = if step_catches e then keep_failure s e else raise e

  -- The `try` around the step, and what follows it.
  unfoldable pub run_step : Step → Exec (Drill W) ℕ
  run_step s m = let (r, m') = action s m in ended s r m'

  -- The identity of a drill is the time of its guard.
  unfoldable pub begin : Step → Exec (Drill W) Done
  begin Step.guard = do t ← now; set_state (λ state. record state { id = some (set_name t) }); save
  begin _ = pure tt

  abbrev pub pass_gate : Step → Gate → Exec (Drill W) ℕ
  pass_gate s Gate.refuse = pure 1
  pass_gate s Gate.nothing_to_do = pure 0
  pass_gate s Gate.run_it = begin s >>= λ _. run_step s

  -- `main` for the commands of STEPS.
  unfoldable pub main : Step → Exec (Drill W) ℕ
  main s m = pass_gate s (gate m.state s) m
