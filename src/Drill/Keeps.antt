-- ===== src/Drill/Keeps.antt =====
-- What the commands and the steps of scripts/drill.py leave as it was.
use k8s_dr.Prelude.{
  ℕ, String, List, Error, drill_failed, value_error, no_start, stage_failed, failed, key_error,
  os_error, runtime_error, out_of_fuel, Exec, for_each,
}
use k8s_dr.Prelude.Keeps.{Keeps, Keeps-pure, Keeps-if, Keeps-bind, action_rules}
use k8s_dr.Drill.State.{Drill, DrillSystem, in_world, with_world, save}
use k8s_dr.Drill.Commands.{
  run, environ_value, push, make, output, output_map, init_root, init_roots, newest_primary_set,
  check_dataset, copy_recovery_file, post_url, only_warn, try_push, runs_since, no_runs, runs_found,
}

-- `Q` does not read the world, and saving keeps it.
pub record Frame {W : Type 0} (Q : Drill W → Type 0) : Type 0 where
  pub world : (m : Drill W) (w : W) → Q m → Q (record m { world = w })
  pub saving : Keeps Q save

module _ {W : Type 0} {Q : Drill W → Type 0} where
  pub Keeps-in_world : {A : Type 0} (f : W → A × W) → Frame Q → Keeps Q (in_world f)
  unfolding in_world
  Keeps-in_world f F = record { at = λ m h. F.world m _ h }

  pub Keeps-with_world : {A : Type 0} (f : Exec W A) → Frame Q → Keeps Q (with_world f)
  unfolding with_world
  Keeps-with_world f F = record { at = λ m h. F.world m _ h }

  pub Keeps-save : Frame Q → Keeps Q save
  Keeps-save F = F.saving

pub ruleset frame_rules = (action_rules, Keeps-in_world, Keeps-with_world, Keeps-save)

module _ {W : Type 0} ⦃sys : DrillSystem W⦄ (Q : Drill W → Type 0) (F : Frame Q) where
  pub Keeps-run : (argv : List String) → Keeps Q (run argv)
  unfolding run
  Keeps-run argv = search (frame_rules)

  pub Keeps-environ_value : (name : String) → Keeps Q (environ_value name)
  unfolding environ_value
  Keeps-environ_value name = search (frame_rules)

  pub Keeps-push : Keeps Q push
  unfolding push
  Keeps-push = search (frame_rules, Keeps-run, Keeps-environ_value) depth 8

  pub Keeps-make : (target : String) (variables : List String) → Keeps Q (make target variables)
  unfolding make
  Keeps-make target variables = Keeps-run _

  pub Keeps-output : (root name : String) → Keeps Q (output root name)
  unfolding output
  Keeps-output root name = search (frame_rules, Keeps-run)

  pub Keeps-output_map : (root name : String) → Keeps Q (output_map root name)
  unfolding output_map
  Keeps-output_map root name = search (frame_rules, Keeps-run)

  Keeps-init_root : (root : String) → Keeps Q (init_root root)
  unfolding init_root
  Keeps-init_root root = search (frame_rules, Keeps-run)

  pub Keeps-init_roots : Keeps Q init_roots
  unfolding init_roots for_each
  Keeps-init_roots = search (frame_rules, Keeps-init_root) depth 10

  pub Keeps-newest_primary_set : Keeps Q newest_primary_set
  unfolding newest_primary_set
  Keeps-newest_primary_set = search (frame_rules, Keeps-run, Keeps-environ_value) depth 8

  pub Keeps-check_dataset : Keeps Q check_dataset
  unfolding check_dataset
  Keeps-check_dataset = search (frame_rules, Keeps-run)

  pub Keeps-copy_recovery_file : (name : String) → Keeps Q (copy_recovery_file name)
  unfolding copy_recovery_file
  Keeps-copy_recovery_file name = search (frame_rules, Keeps-run, Keeps-environ_value) depth 8

  pub Keeps-post_url : (path : String) → Keeps Q (post_url path)
  unfolding post_url
  Keeps-post_url path = search (frame_rules, Keeps-environ_value) depth 8

  pub Keeps-only_warn : (e : Error) → Keeps Q (only_warn e)
  unfolding only_warn
  Keeps-only_warn (drill_failed m) = search frame_rules
  Keeps-only_warn (stage_failed m) = search frame_rules
  Keeps-only_warn (no_start m) = search frame_rules
  Keeps-only_warn (failed m) = search frame_rules
  Keeps-only_warn (value_error m) = search frame_rules
  Keeps-only_warn (key_error m) = search frame_rules
  Keeps-only_warn (os_error m) = search frame_rules
  Keeps-only_warn (runtime_error m) = search frame_rules
  Keeps-only_warn out_of_fuel = search frame_rules

  pub Keeps-try_push : Keeps Q try_push
  unfolding try_push
  Keeps-try_push = search (frame_rules, Keeps-push, Keeps-only_warn)

  pub Keeps-runs_since : (workflow : String) (since : ℕ) → Keeps Q (runs_since workflow since)
  unfolding runs_since
  Keeps-runs_since workflow since = search frame_rules depth 8

  Keeps-no_runs : (e : Error) → Keeps Q (no_runs {W = W} e)
  unfolding no_runs
  Keeps-no_runs (no_start m) = search frame_rules
  Keeps-no_runs (drill_failed m) = search frame_rules
  Keeps-no_runs (stage_failed m) = search frame_rules
  Keeps-no_runs (failed m) = search frame_rules
  Keeps-no_runs (value_error m) = search frame_rules
  Keeps-no_runs (key_error m) = search frame_rules
  Keeps-no_runs (os_error m) = search frame_rules
  Keeps-no_runs (runtime_error m) = search frame_rules
  Keeps-no_runs out_of_fuel = search frame_rules

  pub Keeps-runs_found : (workflow : String) (since : ℕ) → Keeps Q (runs_found workflow since)
  unfolding runs_found
  Keeps-runs_found workflow since = search (frame_rules, Keeps-runs_since, Keeps-no_runs)

pub ruleset drill_rules = (
  frame_rules, Keeps-run, Keeps-environ_value, Keeps-make, Keeps-output, Keeps-output_map,
  Keeps-init_roots, Keeps-newest_primary_set, Keeps-check_dataset, Keeps-copy_recovery_file,
  Keeps-post_url, Keeps-only_warn, Keeps-try_push, Keeps-runs_since, Keeps-runs_found,
)
