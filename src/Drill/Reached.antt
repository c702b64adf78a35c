-- ===== src/Drill/Reached.antt =====
-- The drills that the commands of scripts/drill.py reach, and which of them have isolated the primary.
use k8s_dr.Prelude.{Option, none, some, []}
use k8s_dr.Drill.State.{Drill, DrillState, DrillSystem, Step}
use k8s_dr.Drill.Main.{main}
use k8s_dr.Drill.Issue.{finish}

-- What drill.json holds before the first command.
abbrev pub no_drill : DrillState
no_drill = record {
  id = none;
  steps = [];
  failed = none;
  later_failures = [];
  isolated_at = none;
  primary_restarted = none;
  recovery_run = none;
  return_run = none;
  dataset = none;
  dataset_restored = none;
  result = none;
  outcome = none;
  run_url = none;
  event = none;
}

abbrev pub loaded : Option DrillState → DrillState
loaded none = no_drill
loaded (some state) = state

-- Commands in any order. Between two of them the world may change, and each is a process of its own,
-- which reads drill.json; a process may also end between two writes of the state.
pub data Reached {W : Type 0} ⦃sys : DrillSystem W⦄ : Drill W → Type 0 where
  fresh :
      (w : W) → Reached (record { world = w; state = no_drill; saved = none; stored_result = none })
  command : {m : Drill W} (s : Step) → Reached m → Reached (main s m).1
  finished : {m : Drill W} → Reached m → Reached (finish m).1
  elsewhere : {m : Drill W} (w : W) → Reached m → Reached (record m { world = w })
  reloaded : {m : Drill W} → Reached m → Reached (record m { state = loaded m.saved })
