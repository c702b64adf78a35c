-- ===== src/Drill/StepKeeps.antt =====
-- What the six steps of scripts/drill.py leave as it was.
use k8s_dr.Prelude.{
  ℕ, zero, suc, String, Bool, true, false, Option, none, some, List, [], ◌∷◌, Error, drill_failed,
  value_error, no_start, stage_failed, failed, key_error, os_error, runtime_error, out_of_fuel,
  Done, Exec,
}
use k8s_dr.Prelude.Keeps.{Keeps, Keeps-pure, Keeps-if, Keeps-bind}
use k8s_dr.Watchdog.{Run}
use k8s_dr.Recovery.State.{State}
use k8s_dr.Recovery.Run.{Stage}
use k8s_dr.Drill.State.{
  Drill, DrillSystem, put_isolated, put_restarted, put_dataset, put_restored, put_result, Measured,
  RunNote,
}
use k8s_dr.Drill.Waits.{
  Key, recovery_run, return_run, keep_note, check_start, not_yet, with_found, wait_rounds,
  primary_names, note_isolation, primary_vms, isolate, restart_primary, recover_primary,
  on_failed_wait, wait_for_recovery, wait_step,
}
use k8s_dr.Drill.Guard.{
  write_interval, require_recent_set, guard, pause, write_check, retry_write, write_once,
  more_writes, writes,
}
use k8s_dr.Drill.Measure.{probes, judge, measure, report}
use k8s_dr.Drill.Returning.{
  recovery_state, or_no_state, environment_of, recovery_environment, post_return, already_started,
  retry, post_or_retry, attempts, dispatch_return, end_on_primary, return_step,
}
use k8s_dr.Drill.State.{set_state, Ending}
use k8s_dr.Drill.Issue.{
  name_drill, issue_body, open_issue, pushed, push_status, note_setup, with_ending, store_result,
  finish,
}
use k8s_dr.Drill.Keeps.{Frame, drill_rules, Keeps-runs_found, Keeps-push}

module _ {W : Type 0} ⦃sys : DrillSystem W⦄ (Q : Drill W → Type 0) (F : Frame Q) where
  Keeps-pause : (n : ℕ) → Keeps Q (pause n)
  unfolding pause
  Keeps-pause n = search drill_rules

  Keeps-write_check : Keeps Q write_check
  unfolding write_check
  Keeps-write_check = search drill_rules

  Keeps-retry_write : (e : Error) → Keeps Q (retry_write e)
  unfolding retry_write
  Keeps-retry_write (drill_failed m) = search (drill_rules, Keeps-pause, Keeps-write_check)
  Keeps-retry_write (no_start m) = search drill_rules
  Keeps-retry_write (stage_failed m) = search drill_rules
  Keeps-retry_write (failed m) = search drill_rules
  Keeps-retry_write (value_error m) = search drill_rules
  Keeps-retry_write (key_error m) = search drill_rules
  Keeps-retry_write (os_error m) = search drill_rules
  Keeps-retry_write (runtime_error m) = search drill_rules
  Keeps-retry_write out_of_fuel = search drill_rules

  Keeps-write_once : Keeps Q write_once
  unfolding write_once
  Keeps-write_once = search (drill_rules, Keeps-write_check, Keeps-retry_write)

  Keeps-more_writes : (left : ℕ) → Keeps Q (more_writes left)
  unfolding more_writes
  Keeps-more_writes zero = search drill_rules
  Keeps-more_writes (suc left) =
      Keeps-bind _ _ (Keeps-pause write_interval)
        (λ _. Keeps-bind _ _ Keeps-write_once (λ _. Keeps-more_writes left))

  pub Keeps-writes : Keeps Q writes
  unfolding writes
  Keeps-writes = search (drill_rules, Keeps-write_once, Keeps-more_writes)

  Keeps-require_recent_set : (newest : String) → Keeps Q (require_recent_set newest)
  unfolding require_recent_set
  Keeps-require_recent_set newest = search drill_rules depth 8

  pub Keeps-guard : ((t : String) → Keeps Q (put_dataset t)) → Keeps Q guard
  unfolding guard
  Keeps-guard kd = search (drill_rules, Keeps-require_recent_set) depth 20

  Keeps-check_start : (found : Bool) (deadline : Option ℕ) → Keeps Q (check_start found deadline)
  unfolding check_start
  Keeps-check_start true deadline = search drill_rules
  Keeps-check_start false none = search drill_rules
  Keeps-check_start false (some t) = search drill_rules

  Keeps-not_yet :
      (found : Bool) (deadline : ℕ) (start : Option ℕ) (rest : Exec (Drill W) Done)
      → Keeps Q rest
      → Keeps Q (not_yet found deadline start rest)
  unfolding not_yet
  Keeps-not_yet found deadline start rest k = search (drill_rules, Keeps-check_start) depth 10

  pub Keeps-primary_names : Keeps Q primary_names
  unfolding primary_names
  Keeps-primary_names = search drill_rules

  module _ (key : Key) (kn : (n : RunNote) → Keeps Q (keep_note key n)) where
    Keeps-with_found :
        (deadline : ℕ) (start : Option ℕ) (rest : Exec (Drill W) Done) (runs : List Run)
        → Keeps Q rest
        → Keeps Q (with_found key deadline start rest runs)
    unfolding with_found
    Keeps-with_found deadline start rest [] k = Keeps-not_yet false deadline start rest k
    Keeps-with_found deadline start rest (first ∷ later) k =
        search (drill_rules, Keeps-not_yet) depth 10

    pub Keeps-wait_rounds :
        (fuel : ℕ) (workflow : String) (since deadline : ℕ) (start : Option ℕ)
        → Keeps Q (wait_rounds fuel workflow since deadline key start)
    unfolding wait_rounds
    Keeps-wait_rounds zero workflow since deadline start = search drill_rules
    Keeps-wait_rounds (suc fuel) workflow since deadline start =
        Keeps-bind _ _ (Keeps-runs_found Q F workflow since) (λ found.
          Keeps-with_found deadline start _ found
            (Keeps-wait_rounds fuel workflow since deadline start))

  Keeps-note_start : Keeps Q (note_isolation {W = W} false)
  unfolding note_isolation
  Keeps-note_start = search drill_rules

  module _ (ki : (t : String) → Keeps Q (put_isolated t)) where
    Keeps-note_isolation : (stop : Bool) → Keeps Q (note_isolation stop)
    unfolding note_isolation
    Keeps-note_isolation true = search drill_rules
    Keeps-note_isolation false = search drill_rules

    pub Keeps-isolate : Keeps Q isolate
    unfolding isolate primary_vms
    Keeps-isolate = search (drill_rules, Keeps-note_isolation, Keeps-primary_names) depth 12

  module _ (kr : (t : String) → Keeps Q (put_restarted t)) where
    pub Keeps-restart_primary : Keeps Q restart_primary
    unfolding restart_primary primary_vms
    Keeps-restart_primary = search (drill_rules, Keeps-note_start, Keeps-primary_names) depth 12

    Keeps-recover_primary :
        (reason : String) (recorded : Bool) → Keeps Q (recover_primary reason recorded)
    unfolding recover_primary
    Keeps-recover_primary reason true = search drill_rules
    Keeps-recover_primary reason false = search (drill_rules, Keeps-restart_primary)

    Keeps-on_failed_wait : (e : Error) → Keeps Q (on_failed_wait e)
    unfolding on_failed_wait
    Keeps-on_failed_wait (drill_failed m) = search (drill_rules, Keeps-recover_primary)
    Keeps-on_failed_wait (no_start m) = search drill_rules
    Keeps-on_failed_wait (stage_failed m) = search drill_rules
    Keeps-on_failed_wait (failed m) = search drill_rules
    Keeps-on_failed_wait (value_error m) = search drill_rules
    Keeps-on_failed_wait (key_error m) = search drill_rules
    Keeps-on_failed_wait (os_error m) = search drill_rules
    Keeps-on_failed_wait (runtime_error m) = search drill_rules
    Keeps-on_failed_wait out_of_fuel = search drill_rules

    pub Keeps-wait_step : ((n : RunNote) → Keeps Q (keep_note recovery_run n)) → Keeps Q wait_step
    unfolding wait_step wait_for_recovery
    Keeps-wait_step kn = search (drill_rules, Keeps-on_failed_wait, Keeps-wait_rounds) depth 10

  Keeps-recovery_state : Keeps Q recovery_state
  unfolding recovery_state
  Keeps-recovery_state = search drill_rules depth 8

  Keeps-or_no_state : (e : Error) → Keeps Q (or_no_state {W = W} e)
  unfolding or_no_state
  Keeps-or_no_state (drill_failed m) = search drill_rules
  Keeps-or_no_state (no_start m) = search drill_rules
  Keeps-or_no_state (stage_failed m) = search drill_rules
  Keeps-or_no_state (failed m) = search drill_rules
  Keeps-or_no_state (value_error m) = search drill_rules
  Keeps-or_no_state (key_error m) = search drill_rules
  Keeps-or_no_state (os_error m) = search drill_rules
  Keeps-or_no_state (runtime_error m) = search drill_rules
  Keeps-or_no_state out_of_fuel = search drill_rules

  Keeps-environment_of : (recovered : Option (State Stage)) → Keeps Q (environment_of recovered)
  unfolding environment_of
  Keeps-environment_of none = search drill_rules
  Keeps-environment_of (some recovered) = search drill_rules depth 8

  pub Keeps-recovery_environment : Keeps Q recovery_environment
  unfolding recovery_environment
  Keeps-recovery_environment =
      search (drill_rules, Keeps-recovery_state, Keeps-or_no_state, Keeps-environment_of)

  Keeps-post_return : Keeps Q post_return
  unfolding post_return
  Keeps-post_return = search drill_rules depth 8

  Keeps-already_started : (first : Bool) (since : ℕ) → Keeps Q (already_started first since)
  unfolding already_started
  Keeps-already_started true since = search drill_rules
  Keeps-already_started false since = search drill_rules

  Keeps-retry : (left : ℕ) (rest : Exec (Drill W) Done) → Keeps Q rest → Keeps Q (retry left rest)
  unfolding retry
  Keeps-retry left rest k = search drill_rules depth 8

  Keeps-post_or_retry :
      (left : ℕ) (rest : Exec (Drill W) Done) → Keeps Q rest → Keeps Q (post_or_retry left rest)
  unfolding post_or_retry
  Keeps-post_or_retry left rest k = search (drill_rules, Keeps-post_return, Keeps-retry)

  Keeps-attempts : (left : ℕ) (first : Bool) (since : ℕ) → Keeps Q (attempts left first since)
  unfolding attempts
  Keeps-attempts zero first since = search drill_rules
  Keeps-attempts (suc left) first since =
      let k = Keeps-post_or_retry left _ (Keeps-attempts left false since) in
      Keeps-bind _ _ (Keeps-already_started first since)
        (λ started. Keeps-if started _ _ (Keeps-pure tt) k)

  Keeps-dispatch_return :
      ((n : RunNote) → Keeps Q (keep_note return_run n)) → Keeps Q dispatch_return
  unfolding dispatch_return
  Keeps-dispatch_return kn = search (drill_rules, Keeps-attempts, Keeps-wait_rounds) depth 8

  Keeps-end_on_primary :
      (found : Bool)
      → ((t : String) → Keeps Q (put_restarted t))
      → ((n : RunNote) → Keeps Q (keep_note return_run n))
      → Keeps Q (end_on_primary found)
  unfolding end_on_primary
  Keeps-end_on_primary true kr kn = Keeps-dispatch_return kn
  Keeps-end_on_primary false kr kn = Keeps-restart_primary kr

  pub Keeps-return_step :
      ((t : String) → Keeps Q (put_restarted t))
      → ((n : RunNote) → Keeps Q (keep_note return_run n))
      → Keeps Q return_step
  unfolding return_step
  Keeps-return_step kr kn =
      Keeps-bind _ _ Keeps-recovery_environment (λ found. Keeps-end_on_primary found kr kn)

  Keeps-probes : (isolated : ℕ) (ended : Option ℕ) → Keeps Q (probes isolated ended)
  unfolding probes
  Keeps-probes isolated none = search drill_rules
  Keeps-probes isolated (some ended) = search drill_rules

  Keeps-measure : (isolated : ℕ) (recovered : State Stage) → Keeps Q (measure isolated recovered)
  unfolding measure
  Keeps-measure isolated recovered = search (drill_rules, Keeps-probes) depth 30

  Keeps-judge :
      ((r : Measured) → Keeps Q (put_result r))
      → ((t : String) → Keeps Q (put_restored t))
      → (result : Measured) → Keeps Q (judge result)
  unfolding judge
  Keeps-judge ke kt result = search drill_rules depth 8

  pub Keeps-report :
      ((r : Measured) → Keeps Q (put_result r))
      → ((t : String) → Keeps Q (put_restored t))
      → Keeps Q report
  unfolding report
  Keeps-report ke kt =
      search (drill_rules, Keeps-recovery_state, Keeps-measure, Keeps-judge) depth 12

  Keeps-name_drill :
      (id : Option String)
      → ((id : String) → Keeps Q (set_state (λ s. record s { id = some id })))
      → Keeps Q (name_drill id)
  unfolding name_drill
  Keeps-name_drill (some id) kn = search drill_rules
  Keeps-name_drill none kn = search drill_rules

  Keeps-issue_body : (ending : Ending) → Keeps Q (issue_body ending)
  unfolding issue_body
  Keeps-issue_body ending = search drill_rules depth 8

  Keeps-open_issue : (ending : Ending) → Keeps Q (open_issue ending)
  unfolding open_issue
  Keeps-open_issue ending = search (drill_rules, Keeps-issue_body) depth 8

  Keeps-pushed : Keeps Q pushed
  unfolding pushed
  Keeps-pushed = search (drill_rules, Keeps-push)

  Keeps-push_status : (e : Error) → Keeps Q (push_status {W = W} e)
  unfolding push_status
  Keeps-push_status (drill_failed m) = search drill_rules
  Keeps-push_status (no_start m) = search drill_rules
  Keeps-push_status (stage_failed m) = search drill_rules
  Keeps-push_status (failed m) = search drill_rules
  Keeps-push_status (value_error m) = search drill_rules
  Keeps-push_status (key_error m) = search drill_rules
  Keeps-push_status (os_error m) = search drill_rules
  Keeps-push_status (runtime_error m) = search drill_rules
  Keeps-push_status out_of_fuel = search drill_rules

  pub Keeps-finish :
      ((id : String) → Keeps Q (set_state (λ s. record s { id = some id })))
      → Keeps Q (set_state note_setup)
      → ((environ : List (String × String)) → Keeps Q (set_state (with_ending environ)))
      → Keeps Q store_result
      → Keeps Q finish
  unfolding finish
  Keeps-finish kn ks kw kr =
      search (drill_rules, Keeps-name_drill, Keeps-open_issue, Keeps-pushed, Keeps-push_status)
        depth 14
