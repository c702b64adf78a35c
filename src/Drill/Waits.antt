-- ===== src/Drill/Waits.antt =====
-- scripts/drill.py: the wait for a workflow run, and the steps isolate and wait. The loop of
-- a wait takes fuel, one round for each POLL_SECONDS of its time and two more.
use k8s_dr.Prelude.{
  ℕ, zero, suc, ◌+◌, ◌/◌, String, Bool, true, false, not, Option, none, some, List, [], ◌∷◌, ◌++◌,
  Error, drill_failed, out_of_fuel, key_error, Result, Done, ok, err, Exec, pure, raise, lift,
  raise_if, ask, catching, ◌>>=◌, ◌>>◌, leb, if◌then◌else◌,
}
use k8s_dr.Text.{◌=ᵗ◌, ◌<>◌, sorted_texts}
use k8s_dr.Calendar.{stamp}
use k8s_dr.Watchdog.{Run, is_text}
use k8s_dr.Recovery.Stages.{values_of}
use k8s_dr.Drill.State.{
  Drill, DrillSystem, RunNote, in_world, save, put_isolated, put_restarted, put_recovery_run,
  put_return_run,
}
use k8s_dr.Drill.Commands.{parse, now, run, output, output_map, runs_found}

abbrev pub poll_seconds : ℕ
poll_seconds = 60

-- RTO_TARGET, START_TIMEOUT, RETURN_TIMEOUT and CLOCK_SKEW, in seconds.
abbrev pub rto_target : ℕ
rto_target = 14400

abbrev pub start_timeout : ℕ
start_timeout = 3600

abbrev pub return_timeout : ℕ
return_timeout = 6000

abbrev pub clock_skew : ℕ
clock_skew = 60

abbrev pub rounds_of : ℕ → ℕ
rounds_of timeout = timeout / poll_seconds + 2

-- The keys under which a wait keeps its run.
pub data Key : Type 0 where
  recovery_run return_run : Key

abbrev pub note_of : Run → RunNote
note_of run = record {
  id = run.id;
  url = run.url;
  created_at = run.created_at;
  conclusion = run.conclusion;
}

abbrev pub isolated_text : Option String → Result String
isolated_text none = err (key_error "isolated_at")
isolated_text (some t) = ok t

abbrev pub has_run : List Run → Bool
has_run [] = false
has_run (_ ∷ _) = true

abbrev is_some : Option RunNote → Bool
is_some none = false
is_some (some _) = true

module _ {W : Type 0} where
  unfoldable pub keep_note : Key → RunNote → Exec (Drill W) Done
  keep_note recovery_run n = put_recovery_run n
  keep_note return_run n = put_return_run n

module _ {W : Type 0} ⦃sys : DrillSystem W⦄ where
  -- `if not found and start_deadline and now >= start_deadline`.
  unfoldable pub check_start : Bool → Option ℕ → Exec (Drill W) Done
  check_start true start_deadline = pure tt
  check_start false none = pure tt
  check_start false (some start_deadline) = do
    t ← now
    raise_if (leb start_deadline t) (drill_failed "no run started by the start deadline")

  -- The end of a round that found no completed run: a deadline has passed, or the machine sleeps.
  unfoldable pub not_yet : Bool → ℕ → Option ℕ → Exec (Drill W) Done → Exec (Drill W) Done
  not_yet found deadline start_deadline rest = do
    check_start found start_deadline
    t ← now
    raise_if (leb deadline t) (drill_failed "no run ended by the deadline")
    in_world (λ w. (tt, sys.commands.sleep poll_seconds w))
    rest

  -- A round, by the oldest run that was found.
  unfoldable pub with_found :
      Key → ℕ → Option ℕ → Exec (Drill W) Done → List Run → Exec (Drill W) Done
  with_found key deadline start_deadline rest [] = not_yet false deadline start_deadline rest
  with_found key deadline start_deadline rest (first ∷ later) = do
    keep_note key (note_of first)
    save
    if first.status =ᵗ "completed"
        then raise_if (not (is_text first.conclusion "success"))
            (drill_failed "the run did not succeed")
        else not_yet true deadline start_deadline rest

  unfoldable pub wait_rounds : ℕ → String → ℕ → ℕ → Key → Option ℕ → Exec (Drill W) Done
  wait_rounds zero workflow since deadline key start_deadline = raise out_of_fuel
  wait_rounds (suc fuel) workflow since deadline key start_deadline =
      let rest = wait_rounds fuel workflow since deadline key start_deadline in
      do found ← runs_found workflow since; with_found key deadline start_deadline rest found

  unfoldable pub primary_names : Exec (Drill W) (List String)
  primary_names = do
    names ← output_map "primary" "instance_names"
    pure (sorted_texts (values_of names))

  -- `if action == "stop"`: the time is kept before the VMs stop.
  unfoldable pub note_isolation : Bool → Exec (Drill W) Done
  note_isolation false = pure tt
  note_isolation true = do t ← now; put_isolated (stamp t); save

  -- `primary_vms`, with `stop` or `start`.
  unfoldable pub primary_vms : Bool → Exec (Drill W) Done
  primary_vms stop = do
    names ← primary_names
    zone ← output "primary" "zone"
    project ← output "primary" "project_id"
    note_isolation stop
    run (
        "gcloud" ∷ "compute" ∷ "instances" ∷ (if stop then "stop" else "start") ∷ names
        ++ "--zone" ∷ zone ∷ "--project" ∷ project ∷ [])
    pure tt

  unfoldable pub isolate : Exec (Drill W) Done
  isolate = primary_vms true

  -- The primary is started again, and the time kept.
  unfoldable pub restart_primary : Exec (Drill W) Done
  restart_primary = do primary_vms false; t ← now; put_restarted (stamp t); save

  -- The handler of `wait`: with a run recorded the failure goes on, without one the primary starts again.
  unfoldable pub recover_primary : String → Bool → Exec (Drill W) Done
  recover_primary reason true = raise (drill_failed reason)
  recover_primary reason false = do
    restart_primary
    raise (drill_failed (reason <> "; the drill started the primary VMs again"))

  unfoldable pub on_failed_wait : Error → Exec (Drill W) Done
  on_failed_wait (drill_failed reason) = do
    recorded ← ask (λ m. ok (is_some m.state.recovery_run))
    recover_primary reason recorded
  on_failed_wait e = raise e

  unfoldable pub wait_for_recovery : ℕ → Exec (Drill W) Done
  wait_for_recovery isolated =
      wait_rounds (rounds_of rto_target) "recover.yml" isolated (isolated + rto_target) recovery_run
        (some (isolated + start_timeout))

  -- The step `wait`.
  unfoldable pub wait_step : Exec (Drill W) Done
  wait_step = do
    text ← ask (λ m. isolated_text m.state.isolated_at)
    isolated ← lift (parse text)
    catching (wait_for_recovery isolated) on_failed_wait
