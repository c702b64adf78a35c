-- ===== src/Recovery/Keeps.antt =====
-- What an action leaves as it was: one rule for each way to build an action of scripts/recover.py.
use k8s_dr.Prelude.{
  ℕ, zero, suc, String, Bool, Option, none, some, List, Error, Result, Done, Exec, for_each,
}
use k8s_dr.Prelude.Keeps.{
  Keeps, Keeps-pure, Keeps-raise, Keeps-lift, Keeps-ask, Keeps-if, Keeps-bind, action_rules,
}
use k8s_dr.Recovery.State.{
  Values, Machine, System, on_world, try_world, set_values, save, set_timeline, event,
}
use k8s_dr.Recovery.Commands.{
  call, run_env, make, output, output_json, sleep_until, wait_loop, wait, resolve, account_disabled,
  resolves_to, wait_for_record, healthy, wait_for_health, bucket_or, bucket, kubectl,
  backup_suspend, recovery_sets, require_backups_suspended, init_root, init_roots, inventory,
  or_no_address, current_address, require_recorded_environment,
}

-- A fact about the run state alone, such as the stages that passed, which no command, request,
-- wait or line of the timeline can change, and no value that is recorded.
module _ {W P : Type 0} (R : Option String → List P → Type 0) where
  abbrev pub OfState : Machine W P → Type 0
  OfState m = R m.state.started m.state.passed

  pub Keeps-on_world : {A : Type 0} (f : W → A × W) → Keeps OfState (on_world f)
  unfolding on_world
  Keeps-on_world f = record { at = λ s h. h }

  pub Keeps-try_world : {A : Type 0} (f : W → Result A × W) → Keeps OfState (try_world f)
  unfolding try_world
  Keeps-try_world f = record { at = λ s h. h }

  pub Keeps-set_values : (f : Values → Values) → Keeps OfState (set_values f)
  unfolding set_values
  Keeps-set_values f = record { at = λ s h. h }

  pub Keeps-save : Keeps OfState save
  unfolding save
  Keeps-save = record { at = λ s h. h }

  pub Keeps-set_timeline : (log : String) → Keeps OfState (set_timeline log)
  unfolding set_timeline
  Keeps-set_timeline log = record { at = λ s h. h }

pub ruleset machine_rules = (
  action_rules, Keeps-on_world, Keeps-try_world, Keeps-set_values, Keeps-save, Keeps-set_timeline,
)

module _ {W P : Type 0} (R : Option String → List P → Type 0) ⦃sys : System W⦄ where
  pub Keeps-event : (stage what note : String) → Keeps (OfState {W = W} R) (event stage what note)
  unfolding event
  Keeps-event stage what note = search machine_rules

  pub Keeps-run_env :
      (argv : List String) (env : List (String × String))
      → Keeps (OfState {W = W} R) (run_env argv env)
  unfolding run_env call
  Keeps-run_env argv env = search machine_rules

pub ruleset command_rules = (machine_rules, Keeps-event, Keeps-run_env)

module _ {W P : Type 0} (R : Option String → List P → Type 0) ⦃sys : System W⦄ where
  pub Keeps-make :
      (target : String) (variables : List String)
      → Keeps (OfState {W = W} R) (make target variables)
  unfolding make
  Keeps-make target variables = search (command_rules)

  pub Keeps-output : (root : String) (name : String) → Keeps (OfState {W = W} R) (output root name)
  unfolding output
  Keeps-output root name = search (command_rules)

  pub Keeps-output_json :
      (root : String) (name : String) → Keeps (OfState {W = W} R) (output_json root name)
  unfolding output_json
  Keeps-output_json root name = search (command_rules)

  pub Keeps-call :
      (argv : List String) (env : List (String × String))
      → Keeps (OfState {W = W} R) (call argv env)
  unfolding call
  Keeps-call argv env = search (command_rules)

  Keeps-sleep_until :
      (deadline : ℕ) (what : String) (rest : Exec (Machine W P) Done)
      → Keeps (OfState {W = W} R) rest
      → Keeps (OfState {W = W} R) (sleep_until deadline what rest)
  unfolding sleep_until
  Keeps-sleep_until deadline what rest k = search command_rules depth 8

  pub Keeps-wait_loop :
      (fuel deadline : ℕ) (what : String) (condition : Exec (Machine W P) Bool)
      → Keeps (OfState {W = W} R) condition
      → Keeps (OfState {W = W} R) (wait_loop fuel deadline what condition)
  unfolding wait_loop
  Keeps-wait_loop zero deadline what condition k = Keeps-raise _
  Keeps-wait_loop (suc fuel) deadline what condition k =
      let rest =
        Keeps-sleep_until deadline what _ (Keeps-wait_loop fuel deadline what condition k) in
      Keeps-bind condition _ k (λ holds. Keeps-if holds _ _ (Keeps-pure tt) rest)

  pub Keeps-wait :
      (what : String) (condition : Exec (Machine W P) Bool) (timeout : ℕ)
      → Keeps (OfState {W = W} R) condition
      → Keeps (OfState {W = W} R) (wait what condition timeout)
  unfolding wait
  Keeps-wait what condition timeout k = search (command_rules, Keeps-wait_loop)

  pub Keeps-resolve : (host : String) → Keeps (OfState {W = W} R) (resolve host)
  unfolding resolve
  Keeps-resolve host = search (command_rules)

  pub Keeps-account_disabled :
      (account : String) → Keeps (OfState {W = W} R) (account_disabled account)
  unfolding account_disabled
  Keeps-account_disabled account = search (command_rules)

  pub Keeps-resolves_to :
      (host : String) (address : String) → Keeps (OfState {W = W} R) (resolves_to host address)
  unfolding resolves_to
  Keeps-resolves_to host address = search (command_rules, Keeps-resolve)

  pub Keeps-wait_for_record :
      (host : String) (address : String) → Keeps (OfState {W = W} R) (wait_for_record host address)
  unfolding wait_for_record
  Keeps-wait_for_record host address = search (command_rules, Keeps-wait, Keeps-resolves_to)

  pub Keeps-healthy : (host : String) → Keeps (OfState {W = W} R) (healthy host)
  unfolding healthy
  Keeps-healthy host = search (command_rules)

  pub Keeps-wait_for_health : (host : String) → Keeps (OfState {W = W} R) (wait_for_health host)
  unfolding wait_for_health
  Keeps-wait_for_health host = search (command_rules, Keeps-wait, Keeps-healthy)

  pub Keeps-bucket_or : (known : Option String) → Keeps (OfState {W = W} R) (bucket_or known)
  unfolding bucket_or
  Keeps-bucket_or none = search (command_rules, Keeps-output)
  Keeps-bucket_or (some name) = search command_rules

  pub Keeps-bucket : Keeps (OfState {W = W} R) (bucket)
  unfolding bucket
  Keeps-bucket = search (command_rules, Keeps-bucket_or)

  pub Keeps-kubectl : (commands : List (List String)) → Keeps (OfState {W = W} R) (kubectl commands)
  unfolding kubectl
  Keeps-kubectl commands = search (command_rules)

  pub Keeps-backup_suspend : Keeps (OfState {W = W} R) (backup_suspend)
  unfolding backup_suspend
  Keeps-backup_suspend = search (command_rules, Keeps-kubectl)

  pub Keeps-recovery_sets : Keeps (OfState {W = W} R) (recovery_sets)
  unfolding recovery_sets
  Keeps-recovery_sets = search (command_rules, Keeps-bucket, Keeps-call)

  pub Keeps-require_backups_suspended : Keeps (OfState {W = W} R) (require_backups_suspended)
  unfolding require_backups_suspended
  Keeps-require_backups_suspended =
      search (command_rules, Keeps-backup_suspend, Keeps-recovery_sets)

  pub Keeps-init_root : (root : String) → Keeps (OfState {W = W} R) (init_root root)
  unfolding init_root
  Keeps-init_root root = search (command_rules)

  pub Keeps-inventory : Keeps (OfState {W = W} R) (inventory)
  unfolding inventory
  Keeps-inventory = search (command_rules, Keeps-make)

  pub Keeps-init_roots : Keeps (OfState {W = W} R) init_roots
  unfolding init_roots for_each
  Keeps-init_roots = search (command_rules, Keeps-init_root) depth 8

  Keeps-or_no_address : (e : Error) → Keeps (OfState {W = W} R) (or_no_address e)
  unfolding or_no_address
  Keeps-or_no_address (Error.stage_failed m) = search command_rules
  Keeps-or_no_address _ = search command_rules

  pub Keeps-current_address : Keeps (OfState {W = W} R) (current_address)
  unfolding current_address
  Keeps-current_address = search (command_rules, Keeps-output, Keeps-or_no_address)

  pub Keeps-require_recorded_environment : Keeps (OfState {W = W} R) (require_recorded_environment)
  unfolding require_recorded_environment
  Keeps-require_recorded_environment = search (command_rules, Keeps-current_address)

pub ruleset recovery_rules = (
  command_rules, Keeps-make, Keeps-output, Keeps-output_json, Keeps-call, Keeps-wait, Keeps-resolve,
  Keeps-account_disabled, Keeps-resolves_to, Keeps-wait_for_record, Keeps-healthy,
  Keeps-wait_for_health, Keeps-bucket, Keeps-kubectl, Keeps-backup_suspend,
  Keeps-require_backups_suspended, Keeps-inventory,
)
