-- ===== src/Return/Run.antt =====
-- scripts/return_to_primary.py: the order of the stages and `run`.
use k8s_dr.Prelude.{
  ℕ, String, Bool, true, false, not, Option, none, some, List, [], ◌∷◌, Error, message,
  stage_failed, key_error, os_error, Done, ok, Exec, pure, ask, ◌>>=◌, ◌>>◌, any, ◌==◌,
}
use k8s_dr.Text.{◌<>◌, ◌=ᵗ◌}
use k8s_dr.Report.Timeline.{read_events}
use k8s_dr.Recovery.State.{State, Machine, System, on_world, set_values, save, event}
use k8s_dr.Recovery.Commands.{init_roots, inventory}
use k8s_dr.Recovery.Runner.{attempt, record_start, run_stages, pending}
use k8s_dr.Recovery.Run.{Stage}
use k8s_dr.Return.Stages

pub data Phase : Type 0 where
  start_primary dns_return suspend_recovery_backups lift_fence remove_recovery primary_backup :
      Phase

-- STAGES, in the order of the runbook.
abbrev pub phases : List Phase
phases =
    start_primary ∷ dns_return ∷ suspend_recovery_backups ∷ lift_fence ∷ remove_recovery
    ∷ primary_backup ∷ []

abbrev pub phase_name : Phase → String
phase_name start_primary = "start-primary"
phase_name dns_return = "dns-return"
phase_name suspend_recovery_backups = "suspend-recovery-backups"
phase_name lift_fence = "lift-fence"
phase_name remove_recovery = "remove-recovery"
phase_name primary_backup = "primary-backup"

abbrev pub phase_index : Phase → ℕ
phase_index start_primary = 0
phase_index dns_return = 1
phase_index suspend_recovery_backups = 2
phase_index lift_fence = 3
phase_index remove_recovery = 4
phase_index primary_backup = 5

abbrev pub same_phase : Phase → Phase → Bool
same_phase p q = phase_index p == phase_index q

-- NEEDS_RECOVERY.
abbrev pub needs_recovery : Phase → Bool
needs_recovery remove_recovery = false
needs_recovery primary_backup = false
needs_recovery _ = true

abbrev pub early_catches : Error → Bool
early_catches (stage_failed _) = true
early_catches (os_error _) = true
early_catches (key_error _) = true
early_catches _ = false

abbrev text_or : Option String → String → String
text_or none d = d
text_or (some t) d = t

-- `recovery_started is not None and recovery_started != self.recovered["started"]`.
abbrev pub belongs_elsewhere : Option String → Option String → Bool
belongs_elsewhere none started = false
belongs_elsewhere (some t) none = true
belongs_elsewhere (some t) (some u) = not (t =ᵗ u)

module _ {W : Type 0} ⦃sys : System W⦄ (recovered : State Stage) where
  unfoldable pub phase_of : Phase → Exec (Machine W Phase) Done
  phase_of start_primary = Stages.start_primary recovered
  phase_of dns_return = Stages.dns_return recovered
  phase_of suspend_recovery_backups = Stages.suspend_recovery_backups recovered
  phase_of lift_fence = Stages.lift_fence recovered
  phase_of remove_recovery = Stages.remove_recovery recovered
  phase_of primary_backup = Stages.primary_backup recovered

  -- `setdefault` and `save`, for a recovery that has a start.
  unfoldable pub keep_recovery_started : Option String → Exec (Machine W Phase) Done
  keep_recovery_started none = pure tt
  keep_recovery_started (some t) = do
    set_values (λ v. record v { recovery_started = some (text_or v.recovery_started t) })
    save

  unfoldable pub find_recovery : Bool → Exec (Machine W Phase) Done
  find_recovery false = pure tt
  find_recovery true = do Stages.require_environment recovered; inventory

  -- The block under `try` before the stages.
  unfoldable pub prepare : List Phase → Exec (Machine W Phase) Done
  prepare todo = do init_roots; find_recovery (any needs_recovery todo)

  unfoldable pub note_failure : List Phase → Error → Exec (Machine W Phase) Done
  note_failure [] error = pure tt
  note_failure (p ∷ ps) error =
      event (phase_name p) "note" ("failed before the stage: " <> message error)

  -- `archive` of the state and the timeline of the return.
  unfoldable pub archive_files : Exec (Machine W Phase) Done
  archive_files m = (ok tt, record m { saved = none; timeline = "" })

  -- The table, the archive and the status behind the loop.
  unfoldable pub conclude : Bool → Exec (Machine W Phase) ℕ
  conclude false = pure 1
  conclude true = do
    events ← ask (λ m. read_events m.timeline)
    now ← on_world sys.now
    archive_files
    pure 0

  unfoldable pub after_prepare : List Phase → Option Error → Exec (Machine W Phase) ℕ
  after_prepare todo (some error) = do note_failure todo error; pure 1
  after_prepare todo none = do
    complete ← run_stages phase_name same_phase phase_of phases
    conclude complete

  -- `run` behind the test that the return belongs to this recovery.
  unfoldable pub run_belonging : Bool → List Phase → Exec (Machine W Phase) ℕ
  run_belonging true todo = pure 1
  run_belonging false todo = do
    failure ← attempt early_catches (prepare todo)
    after_prepare todo failure

  unfoldable pub run_phases : List Phase → Exec (Machine W Phase) ℕ
  run_phases todo = do
    keep_recovery_started recovered.started
    known ← ask (λ m. ok m.state.values.recovery_started)
    run_belonging (belongs_elsewhere known recovered.started) todo

  -- `run`, with its exit status.
  unfoldable pub run_return : Exec (Machine W Phase) ℕ
  run_return = do
    started ← ask (λ m. ok m.state.started)
    record_start started
    passed ← ask (λ m. ok m.state.passed)
    run_phases (pending same_phase phases passed)
