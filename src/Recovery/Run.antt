-- ===== src/Recovery/Run.antt =====
-- scripts/recover.py: the order of the stages, `run`, and the commands of `main`.
use k8s_dr.Prelude.{
  ℕ, suc, String, Bool, true, false, not, ◌&&◌, Option, none, some, List, [], ◌∷◌, Error, message,
  stage_failed, os_error, Done, ok, Exec, pure, ask, ◌>>=◌, ◌>>◌, take, ◌==◌,
}
use k8s_dr.Text.{◌<>◌}
use k8s_dr.Report.Timeline.{read_events}
use k8s_dr.Recovery.State.{Machine, System, event}
use k8s_dr.Recovery.Commands.{init_roots, inventory, require_recorded_environment}
use k8s_dr.Recovery.Runner.{attempt, record_start, run_stages, has_passed, pending}
use k8s_dr.Recovery.Stages

pub data Stage : Type 0 where
  preflight provisioning bootstrap flux_reconcile restore : Stage
  verification fence dns_cutover probe_recovery resume_backups : Stage

-- STAGES, in the order of the runbook.
abbrev pub stages : List Stage
stages =
    preflight ∷ provisioning ∷ bootstrap ∷ flux_reconcile ∷ restore ∷ verification ∷ fence
    ∷ dns_cutover ∷ probe_recovery ∷ resume_backups ∷ []

abbrev pub stage_name : Stage → String
stage_name preflight = "preflight"
stage_name provisioning = "provisioning"
stage_name bootstrap = "bootstrap"
stage_name flux_reconcile = "flux-reconcile"
stage_name restore = "restore"
stage_name verification = "verification"
stage_name fence = "fence"
stage_name dns_cutover = "dns-cutover"
stage_name probe_recovery = "probe-recovery"
stage_name resume_backups = "resume-backups"

-- STAGE_NAMES.index.
abbrev pub index : Stage → ℕ
index preflight = 0
index provisioning = 1
index bootstrap = 2
index flux_reconcile = 3
index restore = 4
index verification = 5
index fence = 6
index dns_cutover = 7
index probe_recovery = 8
index resume_backups = 9

abbrev pub same_stage : Stage → Stage → Bool
same_stage p q = index p == index q

-- `STAGES[: last + 1]`.
abbrev pub through_stages : Option Stage → List Stage
through_stages none = stages
through_stages (some p) = take (suc (index p)) stages

abbrev pub setup_catches : Error → Bool
setup_catches (stage_failed _) = true
setup_catches (os_error _) = true
setup_catches _ = false

abbrev is_empty : List Stage → Bool
is_empty [] = true
is_empty (_ ∷ _) = false

module _ {W : Type 0} ⦃sys : System W⦄ where
  unfoldable pub stage_of : Stage → Exec (Machine W Stage) Done
  stage_of preflight = Stages.preflight
  stage_of provisioning = Stages.provisioning
  stage_of bootstrap = Stages.bootstrap
  stage_of flux_reconcile = Stages.flux_reconcile
  stage_of restore = Stages.restore
  stage_of verification = Stages.verification
  stage_of fence = Stages.fence
  stage_of dns_cutover = Stages.dns_cutover
  stage_of probe_recovery = Stages.probe_recovery
  stage_of resume_backups = Stages.resume_backups

  -- What a run that goes on needs to find.
  unfoldable pub find_environment : Bool → Exec (Machine W Stage) Done
  find_environment false = pure tt
  find_environment true = do require_recorded_environment; inventory

  -- The block under `try` before the stages.
  unfoldable pub set_up : List Stage → List Stage → Exec (Machine W Stage) Done
  set_up todo passed = do
    init_roots
    find_environment (not (is_empty todo) && has_passed same_stage provisioning passed)

  -- The note of a failure before the first stage that is left.
  unfoldable pub note_early : List Stage → Error → Exec (Machine W Stage) Done
  note_early [] error = pure tt
  note_early (p ∷ ps) error =
      event (stage_name p) "note" ("failed before the stage: " <> message error)

  -- The exit status after the loop; a complete run reads the timeline for its table.
  unfoldable pub finish_run : Bool → Exec (Machine W Stage) ℕ
  finish_run false = pure 1
  finish_run true = do events ← ask (λ m. read_events m.timeline); pure 0

  unfoldable pub after_set_up : List Stage → Option Stage → Option Error → Exec (Machine W Stage) ℕ
  after_set_up todo through (some error) = do note_early todo error; pure 1
  after_set_up todo through none = do
    complete ← run_stages stage_name same_stage stage_of (through_stages through)
    finish_run complete

  -- `run` behind the recording of its start.
  unfoldable pub run_stages_left : Option Stage → Exec (Machine W Stage) ℕ
  run_stages_left through = do
    passed ← ask (λ m. ok m.state.passed)
    let todo = pending same_stage (through_stages through) passed
    failure ← attempt setup_catches (set_up todo passed)
    after_set_up todo through failure

  -- `run`, with its exit status.
  unfoldable pub run : Option Stage → Exec (Machine W Stage) ℕ
  run through = do
    started ← ask (λ m. ok m.state.started)
    record_start started
    run_stages_left through
