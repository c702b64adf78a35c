-- ===== src/Drill/Guard.antt =====
-- scripts/drill.py: the steps guard and writes.
use k8s_dr.Prelude.{
  ℕ, zero, suc, ◌+◌, String, Bool, true, false, not, none, some, List, [], ◌∷◌, Error, drill_failed,
  value_error, Result, Done, ok, err, Exec, pure, raise, lift, raise_if, catching, ◌>>=◌, ◌>>◌, leb,
}
use k8s_dr.Text.{◌<>◌, words}
use k8s_dr.Calendar.{parse_set}
use k8s_dr.Watchdog.{is_text}
use k8s_dr.Watchdog
use k8s_dr.Drill.State.{Drill, DrillSystem, in_world, with_world, put_dataset}
use k8s_dr.Drill.Commands.{now, run, make, init_roots, newest_primary_set, check_dataset, try_push}

-- BACKUP_INTERVAL, WRITE_INTERVAL, WRITES and RETRY_SECONDS.
abbrev pub backup_interval : ℕ
backup_interval = 900

abbrev pub write_interval : ℕ
write_interval = 300

abbrev pub write_count : ℕ
write_count = 6

abbrev pub retry_seconds : ℕ
retry_seconds = 30

abbrev any_left : List String → Bool
any_left [] = false
any_left (_ ∷ _) = true

unfoldable pub set_time : String → Result ℕ
set_time name = elim (parse_set name) [
  | none ↦ err (value_error "time data does not match format")
  | some t ↦ ok t
]

module _ {W : Type 0} ⦃sys : DrillSystem W⦄ where
  abbrev watch : {A : Type 0} → (Watchdog.System W → String → String → Exec W A) → Exec (Drill W) A
  watch check = with_world (check sys.requests sys.public_host sys.primary_host)

  -- A set is too old from two intervals on.
  unfoldable pub require_recent_set : String → Exec (Drill W) Done
  require_recent_set newest = do
    t ← now
    written ← lift (set_time newest)
    raise_if (leb (written + (backup_interval + backup_interval)) t)
        (drill_failed ("the newest primary set " <> newest <> " is too old"))

  unfoldable pub guard : Exec (Drill W) Done
  guard = do
    raise_if (not (is_text (Watchdog.env_get "SCHEDULED_DRILLS" sys.requests.environ) "true"))
        (drill_failed "the SCHEDULED_DRILLS variable is not true")
    watch Watchdog.require_switch
    watch Watchdog.require_no_recovery
    init_roots
    left ← run ("terraform" ∷ "-chdir=infra/recovery" ∷ "state" ∷ "list" ∷ [])
    raise_if (any_left (words left))
        (drill_failed "infra/recovery holds resources from an earlier recovery")
    watch Watchdog.require_public_name_on_primary
    newest ← newest_primary_set
    require_recent_set newest
    run ("make" ∷ "--no-print-directory" ∷ "preflight" ∷ "BIN=" ∷ [])
    dataset ← check_dataset
    put_dataset dataset

  unfoldable pub pause : ℕ → Exec (Drill W) Done
  pause seconds = in_world (λ w. (tt, sys.commands.sleep seconds w))

  unfoldable pub write_check : Exec (Drill W) Done
  write_check = do make "write-check" ("WRITE_LOG=.drill/drill/writes.tsv" ∷ []); pure tt

  -- One retry, of a failed command only.
  unfoldable pub retry_write : Error → Exec (Drill W) Done
  retry_write (drill_failed _) = do pause retry_seconds; write_check
  retry_write e = raise e

  unfoldable pub write_once : Exec (Drill W) Done
  write_once = do catching write_check retry_write; try_push

  -- The rounds that are left, behind a pause each.
  unfoldable pub more_writes : ℕ → Exec (Drill W) Done
  more_writes zero = pure tt
  more_writes (suc left) = do pause write_interval; write_once; more_writes left

  -- The step `writes`: the first write comes at once.
  unfoldable pub writes : Exec (Drill W) Done
  writes = do write_once; more_writes 5
