-- ===== src/Recovery/State.antt =====
-- scripts/recover.py: the run state of recover.json, the machine that a run changes, and the commands,
-- requests and clock that it uses.
use k8s_dr.Prelude.{ℕ, String, Option, none, some, List, [], Result, Done, ok, Exec, ask, ◌>>=◌}
use k8s_dr.Report.Timeline.{append_event}

-- The values that the stages of scripts/recover.py and scripts/return_to_primary.py record.
pub record Values : Type 0 where
  pub bucket : Option String
  pub recovery_address : Option String
  pub certificate_host : Option String
  pub backup_set : Option String
  pub restored_head : Option String
  pub fence_lifted : Option String
  pub recovery_started : Option String

abbrev pub no_values : Values
no_values = record {
  bucket = none;
  recovery_address = none;
  certificate_host = none;
  backup_set = none;
  restored_head = none;
  fence_lifted = none;
  recovery_started = none;
}

-- `self.state`, over the names of the stages.
pub record State (P : Type 0) : Type 0 where
  pub started : Option String
  pub passed : List P
  pub values : Values

abbrev pub no_state : {P : Type 0} → State P
no_state = record { started = none; passed = []; values = no_values }

-- The object and its two files: the state in memory, the state that the file holds, and the text of
-- the timeline.
pub record Machine (W P : Type 0) : Type 0 where
  pub world : W
  pub state : State P
  pub saved : Option (State P)
  pub timeline : String

-- `Result` of scripts/recover.py.
pub record Completed : Type 0 where
  pub returncode : ℕ
  pub stdout : String
  pub stderr : String

-- One entry of `resource_changes` in a plan.
pub record Change : Type 0 where
  pub address : String
  pub kind : String
  pub actions : List String

-- The node of the inventory that `kubectl` reaches.
pub record Node : Type 0 where
  pub instance_name : String
  pub zone : String
  pub project : String

-- The class `System`, over a world, with the decoders of the JSON that the commands print, the
-- inventory file, and the three host names of the cluster settings.
pub record System (W : Type 0) : Type 0 where
  pub call : List String → List (String × String) → W → Result Completed × W
  pub http_status : String → W → Option ℕ × W
  pub local_addresses : String → W → List String × W
  pub sleep : ℕ → W → W
  pub now : W → ℕ × W
  pub decode_plan : String → Result (List Change)
  pub decode_map : String → Result (List (String × String))
  pub read_inventory : W → Result Node
  pub recovery_host : String
  pub public_host : String
  pub primary_host : String

module _ {W P : Type 0} where
  -- An operation on the world alone.
  unfoldable pub on_world : {A : Type 0} → (W → A × W) → Exec (Machine W P) A
  on_world f m = let (a, w) = f m.world in (ok a, record m { world = w })

  -- The same, with an operation that may raise.
  unfoldable pub try_world : {A : Type 0} → (W → Result A × W) → Exec (Machine W P) A
  try_world f m = let (r, w) = f m.world in (r, record m { world = w })

  abbrev pub with_values : (Values → Values) → Machine W P → Machine W P
  with_values f m = record m { state = record m.state { values = f m.state.values } }

  -- Records a value.
  unfoldable pub set_values : (Values → Values) → Exec (Machine W P) Done
  set_values f m = (ok tt, with_values f m)

  -- `save`: the file is replaced whole.
  unfoldable pub save : Exec (Machine W P) Done
  save m = (ok tt, record m { saved = some m.state })

  unfoldable pub set_timeline : String → Exec (Machine W P) Done
  set_timeline log m = (ok tt, record m { timeline = log })

module _ {W P : Type 0} ⦃sys : System W⦄ where
  -- `event`: one line at the end of the timeline.
  unfoldable pub event : String → String → String → Exec (Machine W P) Done
  event stage what note = do
    now ← on_world sys.now
    log ← ask (λ m. append_event m.timeline stage what note now)
    set_timeline log
