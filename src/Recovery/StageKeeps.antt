-- ===== src/Recovery/StageKeeps.antt =====
-- No stage of scripts/recover.py changes which stages have passed, or the start of the run.
use k8s_dr.Prelude.{String, Option, none, some, List}
use k8s_dr.Recovery.State.{System}
use k8s_dr.Prelude.Keeps.{Keeps}
use k8s_dr.Recovery.Keeps.{OfState, recovery_rules}
use k8s_dr.Recovery.Stages.{
  preflight, provisioning, certificate_host_or, certificate_host, bootstrap, flux_reconcile,
  backup_set_or, backup_set, restore, record_head, verification, is_disabled, is_silent, fence,
  recorded_address, dns_cutover, probe_recovery, suspend_is, request_reconcile, resume_backups,
}
use k8s_dr.Recovery.Run.{Stage, stage_of}

module _ {W P : Type 0} (R : Option String → List P → Type 0) ⦃sys : System W⦄ where
  Keeps-preflight : Keeps (OfState {W = W} R) (preflight)
  unfolding preflight
  Keeps-preflight = search (recovery_rules)

  Keeps-provisioning : Keeps (OfState {W = W} R) (provisioning)
  unfolding provisioning
  Keeps-provisioning = search (recovery_rules) depth 14

  Keeps-certificate_host_or :
      (known : Option String) → Keeps (OfState {W = W} R) (certificate_host_or known)
  unfolding certificate_host_or
  Keeps-certificate_host_or none = search recovery_rules depth 8
  Keeps-certificate_host_or (some host) = search recovery_rules

  Keeps-certificate_host : Keeps (OfState {W = W} R) (certificate_host)
  unfolding certificate_host
  Keeps-certificate_host = search (recovery_rules, Keeps-certificate_host_or)

  Keeps-bootstrap : Keeps (OfState {W = W} R) (bootstrap)
  unfolding bootstrap
  Keeps-bootstrap = search (recovery_rules, Keeps-certificate_host) depth 8

  Keeps-flux_reconcile : Keeps (OfState {W = W} R) (flux_reconcile)
  unfolding flux_reconcile
  Keeps-flux_reconcile = search (recovery_rules) depth 8

  Keeps-backup_set_or : (known : Option String) → Keeps (OfState {W = W} R) (backup_set_or known)
  unfolding backup_set_or
  Keeps-backup_set_or none = search recovery_rules depth 9
  Keeps-backup_set_or (some name) = search recovery_rules

  Keeps-backup_set : Keeps (OfState {W = W} R) (backup_set)
  unfolding backup_set
  Keeps-backup_set = search (recovery_rules, Keeps-backup_set_or)

  Keeps-restore : Keeps (OfState {W = W} R) (restore)
  unfolding restore
  Keeps-restore = search (recovery_rules, Keeps-backup_set) depth 8

  Keeps-record_head :
      (known found : Option String) → Keeps (OfState {W = W} R) (record_head known found)
  unfolding record_head
  Keeps-record_head (some head) found = search recovery_rules
  Keeps-record_head none none = search recovery_rules
  Keeps-record_head none (some head) = search recovery_rules

  Keeps-verification : Keeps (OfState {W = W} R) (verification)
  unfolding verification
  Keeps-verification = search (recovery_rules, Keeps-record_head) depth 9

  Keeps-is_disabled : (account : String) → Keeps (OfState {W = W} R) (is_disabled account)
  unfolding is_disabled
  Keeps-is_disabled account = search (recovery_rules)

  Keeps-is_silent : (host : String) → Keeps (OfState {W = W} R) (is_silent host)
  unfolding is_silent
  Keeps-is_silent host = search (recovery_rules)

  Keeps-fence : Keeps (OfState {W = W} R) (fence)
  unfolding fence
  Keeps-fence = search (recovery_rules, Keeps-is_disabled, Keeps-is_silent) depth 16

  Keeps-recorded_address : Keeps (OfState {W = W} R) (recorded_address)
  unfolding recorded_address
  Keeps-recorded_address = search (recovery_rules)

  Keeps-dns_cutover : Keeps (OfState {W = W} R) (dns_cutover)
  unfolding dns_cutover
  Keeps-dns_cutover = search (recovery_rules, Keeps-recorded_address) depth 8

  Keeps-probe_recovery : Keeps (OfState {W = W} R) (probe_recovery)
  unfolding probe_recovery
  Keeps-probe_recovery = search (recovery_rules) depth 8

  pub Keeps-suspend_is : (value : String) → Keeps (OfState {W = W} R) (suspend_is value)
  unfolding suspend_is
  Keeps-suspend_is value = search (recovery_rules)

  pub Keeps-request_reconcile : Keeps (OfState {W = W} R) (request_reconcile)
  unfolding request_reconcile
  Keeps-request_reconcile = search (recovery_rules)

  Keeps-resume_backups : Keeps (OfState {W = W} R) (resume_backups)
  unfolding resume_backups
  Keeps-resume_backups = search (recovery_rules, Keeps-suspend_is, Keeps-request_reconcile) depth 8

module _ {W : Type 0} (R : Option String → List Stage → Type 0) ⦃sys : System W⦄ where
  -- Whatever a stage does, and however it ends, the stages that passed and the start of the run are as before.
  pub Keeps-stage_of : (p : Stage) → Keeps (OfState {W = W} R) (stage_of p)
  unfolding stage_of
  Keeps-stage_of Stage.preflight = Keeps-preflight R
  Keeps-stage_of Stage.provisioning = Keeps-provisioning R
  Keeps-stage_of Stage.bootstrap = Keeps-bootstrap R
  Keeps-stage_of Stage.flux_reconcile = Keeps-flux_reconcile R
  Keeps-stage_of Stage.restore = Keeps-restore R
  Keeps-stage_of Stage.verification = Keeps-verification R
  Keeps-stage_of Stage.fence = Keeps-fence R
  Keeps-stage_of Stage.dns_cutover = Keeps-dns_cutover R
  Keeps-stage_of Stage.probe_recovery = Keeps-probe_recovery R
  Keeps-stage_of Stage.resume_backups = Keeps-resume_backups R
