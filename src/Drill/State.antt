-- ===== src/Drill/State.antt =====
-- scripts/drill.py: the state of drill.json, and the object that the steps change.
use k8s_dr.Prelude.{ℕ, ℤ, String, Bool, Option, some, List, [], ◌∷◌, Result, Done, ok, Exec, ◌==◌}
use k8s_dr.Recovery.State.{State}
use k8s_dr.Recovery.Run.{Stage}
use k8s_dr.Recovery
use k8s_dr.Watchdog

pub data Step : Type 0 where
  guard writes isolate wait report return : Step

-- STEPS, in order.
abbrev pub steps : List Step
steps = guard ∷ writes ∷ isolate ∷ wait ∷ report ∷ return ∷ []

abbrev pub step_index : Step → ℕ
step_index guard = 0
step_index writes = 1
step_index isolate = 2
step_index wait = 3
step_index report = 4
step_index return = 5

abbrev pub step_name : Step → String
step_name guard = "guard"
step_name writes = "writes"
step_name isolate = "isolate"
step_name wait = "wait"
step_name report = "report"
step_name return = "return"

abbrev pub same_step : Step → Step → Bool
same_step a b = step_index a == step_index b

pub record Failure : Type 0 where
  pub step : String
  pub reason : String

-- What is kept of a workflow run that the drill waits for.
pub record RunNote : Type 0 where
  pub id : ℕ
  pub url : String
  pub created_at : String
  pub conclusion : Option String

-- `self.state["result"]`, what the report measured; durations are in seconds.
pub record Measured : Type 0 where
  pub first_failed_probe : String
  pub first_failed_by_checker : List (String × String)
  pub recovery_started : String
  pub recovered : String
  pub detection_seconds : ℤ
  pub recovery_seconds : ℤ
  pub backup_set : String
  pub backup_age_seconds : ℤ
  pub restored_head : String
  pub last_write : String
  pub data_loss_seconds : ℤ
  pub writes_lost : ℕ
  pub stages : List (String × ℤ)
  pub met : Bool

-- The texts that `outcome` returns.
pub data Ending : Type 0 where
  refused missed failed passed : Ending

-- `self.state`.
pub record DrillState : Type 0 where
  pub id : Option String
  pub steps : List (Step × Bool)
  pub failed : Option Failure
  pub later_failures : List Failure
  pub isolated_at : Option String
  pub primary_restarted : Option String
  pub recovery_run : Option RunNote
  pub return_run : Option RunNote
  pub dataset : Option String
  pub dataset_restored : Option String
  pub result : Option Measured
  pub outcome : Option Ending
  pub run_url : Option String
  pub event : Option String

-- The object: the world, the state in memory, and what drill.json and result.json hold.
pub record Drill (W : Type 0) : Type 0 where
  pub world : W
  pub state : DrillState
  pub saved : Option DrillState
  pub stored_result : Option DrillState

-- The class `System`, of the two that it extends, with the files of the work directory that the
-- commands write: the write log, and the copies of the recovery's state and timeline.
pub record DrillSystem (W : Type 0) : Type 0 where
  pub commands : Recovery.State.System W
  pub requests : Watchdog.System W
  pub public_host : String
  pub primary_host : String
  pub read_write_log : W → Result String
  pub read_recovered : W → Result (State Stage)
  pub read_timeline : W → Result String
  pub open_issue : String → String → String → W → Watchdog.Response × W

module _ {W : Type 0} where
  unfoldable pub in_world : {A : Type 0} → (W → A × W) → Exec (Drill W) A
  in_world f m = let (a, w) = f m.world in (ok a, record m { world = w })

  unfoldable pub with_world : {A : Type 0} → Exec W A → Exec (Drill W) A
  with_world f m = let (r, w) = f m.world in (r, record m { world = w })

  unfoldable pub set_state : (DrillState → DrillState) → Exec (Drill W) Done
  set_state f m = (ok tt, record m { state = f m.state })

  unfoldable pub save : Exec (Drill W) Done
  save m = (ok tt, record m { saved = some m.state })

  unfoldable pub put_isolated : String → Exec (Drill W) Done
  put_isolated t = set_state (λ s. record s { isolated_at = some t })

  unfoldable pub put_restarted : String → Exec (Drill W) Done
  put_restarted t = set_state (λ s. record s { primary_restarted = some t })

  unfoldable pub put_recovery_run : RunNote → Exec (Drill W) Done
  put_recovery_run n = set_state (λ s. record s { recovery_run = some n })

  unfoldable pub put_return_run : RunNote → Exec (Drill W) Done
  put_return_run n = set_state (λ s. record s { return_run = some n })

  unfoldable pub put_dataset : String → Exec (Drill W) Done
  put_dataset t = set_state (λ s. record s { dataset = some t })

  unfoldable pub put_restored : String → Exec (Drill W) Done
  put_restored t = set_state (λ s. record s { dataset_restored = some t })

  unfoldable pub put_result : Measured → Exec (Drill W) Done
  put_result r = set_state (λ s. record s { result = some r })
