-- ===== src/Return/Keeps.antt =====
-- No stage of scripts/return_to_primary.py changes which stages have passed.
use k8s_dr.Prelude.{String, Bool, true, false, Option, List}
use k8s_dr.Recovery.State.{State, System}
use k8s_dr.Recovery.Run.{Stage}
use k8s_dr.Prelude.Keeps.{Keeps}
use k8s_dr.Recovery.Keeps.{OfState, recovery_rules, Keeps-current_address}
use k8s_dr.Recovery.StageKeeps.{Keeps-suspend_is, Keeps-request_reconcile}
use k8s_dr.Return.Stages.{
  require_environment, newest_primary_set, start_primary, resolves_here, dns_return, suspend_if,
  suspend_recovery_backups, is_enabled, lift_fence, remove_recovery, backs_up_again, primary_backup,
}
use k8s_dr.Return.Run.{Phase, phase_of}

module _ {W P : Type 0} (R : Option String → List P → Type 0) ⦃sys : System W⦄
    (recovered : State Stage) where
  pub Keeps-require_environment : Keeps (OfState {W = W} R) (require_environment recovered)
  unfolding require_environment
  Keeps-require_environment = search (recovery_rules, Keeps-current_address) depth 8

  Keeps-newest_primary_set : Keeps (OfState {W = W} R) (newest_primary_set recovered)
  unfolding newest_primary_set
  Keeps-newest_primary_set = search recovery_rules

  Keeps-start_primary : Keeps (OfState {W = W} R) (start_primary recovered)
  unfolding start_primary
  Keeps-start_primary = search recovery_rules depth 12

  Keeps-resolves_here :
      (host address : String) → Keeps (OfState {W = W} R) (resolves_here recovered host address)
  unfolding resolves_here
  Keeps-resolves_here host address = search recovery_rules

  Keeps-dns_return : Keeps (OfState {W = W} R) (dns_return recovered)
  unfolding dns_return
  Keeps-dns_return = search (recovery_rules, Keeps-resolves_here) depth 12

  Keeps-suspend_if : (b : Bool) → Keeps (OfState {W = W} R) (suspend_if recovered b)
  unfolding suspend_if
  Keeps-suspend_if true = search (recovery_rules, Keeps-suspend_is, Keeps-request_reconcile) depth 8
  Keeps-suspend_if false = search recovery_rules

  Keeps-suspend_recovery_backups : Keeps (OfState {W = W} R) (suspend_recovery_backups recovered)
  unfolding suspend_recovery_backups
  Keeps-suspend_recovery_backups = Keeps-suspend_if _

  Keeps-is_enabled : (account : String) → Keeps (OfState {W = W} R) (is_enabled recovered account)
  unfolding is_enabled
  Keeps-is_enabled account = search recovery_rules

  Keeps-lift_fence : Keeps (OfState {W = W} R) (lift_fence recovered)
  unfolding lift_fence
  Keeps-lift_fence = search (recovery_rules, Keeps-is_enabled) depth 12

  Keeps-remove_recovery : Keeps (OfState {W = W} R) (remove_recovery recovered)
  unfolding remove_recovery
  Keeps-remove_recovery = search recovery_rules depth 16

  Keeps-backs_up_again :
      (lifted : String) → Keeps (OfState {W = W} R) (backs_up_again recovered lifted)
  unfolding backs_up_again
  Keeps-backs_up_again lifted = search (recovery_rules, Keeps-newest_primary_set)

  Keeps-primary_backup : Keeps (OfState {W = W} R) (primary_backup recovered)
  unfolding primary_backup
  Keeps-primary_backup =
      search (recovery_rules, Keeps-backs_up_again, Keeps-newest_primary_set) depth 8

module _ {W : Type 0} (R : Option String → List Phase → Type 0) ⦃sys : System W⦄
    (recovered : State Stage) where
  pub Keeps-phase_of : (p : Phase) → Keeps (OfState {W = W} R) (phase_of recovered p)
  unfolding phase_of
  Keeps-phase_of Phase.start_primary = Keeps-start_primary R recovered
  Keeps-phase_of Phase.dns_return = Keeps-dns_return R recovered
  Keeps-phase_of Phase.suspend_recovery_backups = Keeps-suspend_recovery_backups R recovered
  Keeps-phase_of Phase.lift_fence = Keeps-lift_fence R recovered
  Keeps-phase_of Phase.remove_recovery = Keeps-remove_recovery R recovered
  Keeps-phase_of Phase.primary_backup = Keeps-primary_backup R recovered
