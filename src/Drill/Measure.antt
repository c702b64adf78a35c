-- ===== src/Drill/Measure.antt =====
-- scripts/drill.py: the step report.
use k8s_dr.Prelude.{
  ℕ, ℤ, sub_ℕ, leb_ℤ, ◌-◌, String, not, ◌&&◌, Option, none, some, List, [], ◌∷◌, drill_failed,
  value_error, key_error, runtime_error, Result, Done, ok, err, Exec, pure, raise, lift, raise_if,
  ask, ◌>>=◌, ◌>>◌, length, ltb, leb, if◌then◌else◌,
}
use k8s_dr.Text.{◌=ᵗ◌, ◌<>◌, join}
use k8s_dr.Calendar.{stamp}
use k8s_dr.Watchdog
use k8s_dr.Watchdog.Checkers.{Point, Series, point_time, min_checkers}
use k8s_dr.Report.{Loss, and_then, read_writes, data_loss}
use k8s_dr.Report.Timeline.{Row, read_events, stage_rows, row_of}
use k8s_dr.Recovery.State.{State}
use k8s_dr.Recovery.Run.{Stage, stages, stage_name, same_stage}
use k8s_dr.Recovery.Runner.{pending}
use k8s_dr.Drill.State.{
  Drill, DrillSystem, Measured, RunNote, with_world, save, put_result, put_restored,
}
use k8s_dr.Drill.Commands.{parse, copy_recovery_file, check_dataset}
use k8s_dr.Drill.Waits.{isolated_text, rto_target}
use k8s_dr.Drill.Guard.{set_time}
use k8s_dr.Drill.Returning.{recovery_state}

-- RPO_TARGET.
abbrev pub rpo_target : ℕ
rpo_target = 7200

-- The first of the times, `sorted(times)[0]`.
unfoldable pub earliest : List ℕ → Option ℕ
earliest [] = none
earliest (t ∷ ts) = elim (earliest ts) [ none ↦ some t | some u ↦ some (if leb t u then t else u) ]

-- The times at which one checker failed, from the isolation on.
unfoldable pub failed_times : ℕ → List Point → Result (List ℕ)
failed_times isolated [] = ok []
failed_times isolated (p ∷ ps) =
    let rest = failed_times isolated ps in
    if p.passed
    then rest
    else and_then (point_time p.end_time)
        λ t. and_then rest λ ts. ok (if leb isolated t then t ∷ ts else ts)

-- `firsts[location] = …`: a later series of the same checker takes the place of an earlier one.
unfoldable pub set_first : String → ℕ → List (String × ℕ) → List (String × ℕ)
set_first location t [] = (location, t) ∷ []
set_first location t ((l, u) ∷ firsts) =
    let rest = set_first location t firsts in
    if l =ᵗ location then (l, t) ∷ firsts else (l, u) ∷ rest

abbrev add_first : String → Option ℕ → List (String × ℕ) → List (String × ℕ)
add_first location none firsts = firsts
add_first location (some t) firsts = set_first location t firsts

unfoldable pub first_failures : ℕ → List (String × ℕ) → List Series → Result (List (String × ℕ))
first_failures isolated firsts [] = ok firsts
first_failures isolated firsts (one ∷ series) =
    and_then (failed_times isolated one.points)
      λ ts. first_failures isolated (add_first one.checker (earliest ts) firsts) series

abbrev times_of : List (String × ℕ) → List ℕ
times_of [] = []
times_of ((l, t) ∷ firsts) = t ∷ times_of firsts

abbrev stamps_of : List (String × ℕ) → List (String × String)
stamps_of [] = []
stamps_of ((l, t) ∷ firsts) = (l, stamp t) ∷ stamps_of firsts

-- The end of `first_failed_probe`: at least three checkers, and the earliest of their failures.
unfoldable pub enough_checkers : List (String × ℕ) → Result ℕ
enough_checkers firsts =
    if ltb (length firsts) min_checkers
    then err (drill_failed "too few checkers reported a failure after the isolation")
    else elim (earliest (times_of firsts)) [
      | none ↦ err (value_error "min() of no times")
      | some t ↦ ok t
    ]

-- `rows["probe-recovery"]["end"]`; a row may have no end.
unfoldable pub end_of : Option Row → Result (Option ℕ)
end_of none = err (key_error "probe-recovery")
end_of (some row) = ok row.end

abbrev pub need : String → Option String → Result String
need key none = err (key_error key)
need key (some t) = ok t

abbrev pub need_run : Option RunNote → Result RunNote
need_run none = err (key_error "recovery_run")
need_run (some n) = ok n

abbrev row_duration : String → Option ℕ → Option ℕ → List (String × ℤ) → List (String × ℤ)
row_duration stage (some s) (some e) rest = (stage, sub_ℕ e s) ∷ rest
row_duration stage _ _ rest = rest

-- The stages that have a start and an end.
unfoldable pub durations : List (String × Row) → List (String × ℤ)
durations [] = []
durations ((stage, row) ∷ rows) = row_duration stage row.start row.end (durations rows)

unfoldable pub measured :
    ℕ → ℕ → ℕ → ℕ → ℕ → List (String × ℕ) → List (String × Row) → String → String → Loss → Measured
measured isolated first_failed started ended set_written firsts rows backup_set head loss =
    let recovery = sub_ℕ ended first_failed in
    record {
      first_failed_probe = stamp first_failed;
      first_failed_by_checker = stamps_of firsts;
      recovery_started = stamp started;
      recovered = stamp ended;
      detection_seconds = sub_ℕ started first_failed;
      recovery_seconds = recovery;
      backup_set = backup_set;
      backup_age_seconds = sub_ℕ isolated set_written;
      restored_head = head;
      last_write = stamp loss.last.acknowledged;
      data_loss_seconds = loss.loss;
      writes_lost = length loss.lost;
      stages = durations rows;
      met = leb_ℤ recovery rto_target && leb_ℤ loss.loss rpo_target;
    }

abbrev missing_names : List Stage → List String
missing_names [] = []
missing_names (p ∷ ps) = stage_name p ∷ missing_names ps

abbrev pub need_all : List String → Result Done
need_all [] = ok tt
need_all (t ∷ ts) =
    err (drill_failed ("the recovery run state has not passed " <> join ", " (t ∷ ts)))

abbrev pub need_state : Option (State Stage) → Result (State Stage)
need_state none =
    err (drill_failed "the recovery run state is not from a run started after the isolation")
need_state (some recovered) = ok recovered

module _ {W : Type 0} ⦃sys : DrillSystem W⦄ where
  -- The series of `first_failed_probe`, from five minutes before the isolation to the end of the recovery, with
  -- that end. Without one, `uptime_series` looks the check up and fails where it writes the time, with an error
  -- that no handler of the drill catches.
  unfoldable pub probes : ℕ → Option ℕ → Exec (Drill W) (ℕ × List Series)
  probes isolated none = do
    with_world (Watchdog.uptime_check sys.requests sys.public_host sys.primary_host)
    raise (runtime_error "the stage has no end")
  probes isolated (some ended) = do
    series ← with_world (
        Watchdog.uptime_series sys.requests sys.public_host sys.primary_host (isolated - 300) ended)
    pure (ended, series)

  unfoldable pub judge : Measured → Exec (Drill W) Done
  judge result = do
    put_result result
    save
    raise_if (not result.met) (drill_failed "recovery time or data loss missed its target")
    restored ← check_dataset
    put_restored restored

  -- What the report computes behind the reading of the recovery's state.
  unfoldable pub measure : ℕ → State Stage → Exec (Drill W) Measured
  measure isolated recovered = do
    copy_recovery_file "timeline.tsv"
    lift (need_all (missing_names (pending same_stage stages recovered.passed)))
    log ← ask (λ m. sys.read_timeline m.world)
    events ← lift (read_events log)
    let rows = stage_rows events
    known_end ← lift (end_of (row_of "probe-recovery" rows))
    found ← probes isolated known_end
    let ended = found.0
    firsts ← lift (first_failures isolated [] found.1)
    first_failed ← lift (enough_checkers firsts)
    note ← ask (λ m. need_run m.state.recovery_run)
    started ← lift (parse note.created_at)
    log' ← ask (λ m. sys.read_write_log m.world)
    writes ← lift (read_writes log')
    head ← lift (need "restored_head" recovered.values.restored_head)
    loss ← lift (data_loss writes head isolated)
    backup_set ← lift (need "backup_set" recovered.values.backup_set)
    set_written ← lift (set_time backup_set)
    pure (measured isolated first_failed started ended set_written firsts rows backup_set head loss)

  -- The step `report`.
  unfoldable pub report : Exec (Drill W) Done
  report = do
    isolated ← ask (λ m. and_then (isolated_text m.state.isolated_at) parse)
    recovered ← recovery_state
    known ← lift (need_state recovered)
    result ← measure isolated known
    judge result
