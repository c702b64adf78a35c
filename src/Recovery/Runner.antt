-- ===== src/Recovery/Runner.antt =====
-- The loop of `run` in scripts/recover.py, which scripts/return_to_primary.py repeats over its own stages: a stage that
-- passed earlier is skipped, and the first failure ends the run.
use k8s_dr.Prelude.{
  String, Bool, true, false, not, Option, none, some, List, [], ◌∷◌, ◌++◌, Error, message,
  stage_failed, os_error, value_error, key_error, Result, Done, ok, err, Exec, pure, ◌>>=◌, ◌>>◌,
  any, keep, if◌then◌else◌,
}
use k8s_dr.Text.{◌<>◌}
use k8s_dr.Recovery.State.{Machine, System, on_world, save, event}
use k8s_dr.Calendar.{stamp}

-- `except (StageFailed, OSError, ValueError, KeyError)` around a stage.
abbrev pub stage_catches : Error → Bool
stage_catches (stage_failed _) = true
stage_catches (os_error _) = true
stage_catches (value_error _) = true
stage_catches (key_error _) = true
stage_catches _ = false

module _ {W P : Type 0} where
  abbrev pub caught : (Error → Bool) → Result Done → Exec (Machine W P) (Option Error)
  caught catches (ok _) m = (ok none, m)
  caught catches (err e) m = if catches e then (ok (some e), m) else (err e, m)

  -- What `try` and `except` make of a block: nothing, or the error that is handled.
  unfoldable pub attempt :
      (Error → Bool) → Exec (Machine W P) Done → Exec (Machine W P) (Option Error)
  attempt catches block m = let (r, m') = block m in caught catches r m'

  unfoldable pub mark_passed : P → Exec (Machine W P) Done
  mark_passed p m =
      (ok tt, record m { state = record m.state { passed = m.state.passed ++ p ∷ [] } })

module _ {W P : Type 0} ⦃sys : System W⦄ where
  unfoldable pub set_started : String → Exec (Machine W P) Done
  set_started text m = (ok tt, record m { state = record m.state { started = some text } })

  -- The start of a run that has none.
  unfoldable pub record_start : Option String → Exec (Machine W P) Done
  record_start (some _) = pure tt
  record_start none = do now ← on_world sys.now; set_started (stamp now); save

module _ {P : Type 0} (same : P → P → Bool) where
  -- `name in state["passed"]`.
  abbrev pub has_passed : P → List P → Bool
  has_passed p passed = any (λ q. same q p) passed

  unfoldable pub pending : List P → List P → List P
  pending ps passed = keep (λ p. not (has_passed p passed)) ps

module _ {W P : Type 0} ⦃sys : System W⦄ (name : P → String) where
  -- What follows a stage: the failure is noted and ends the run, or the stage has passed. The flag
  -- says whether to go on.
  unfoldable pub settle : P → Option Error → Exec (Machine W P) Bool
  settle p (some error) = do save; event (name p) "note" ("failed: " <> message error); pure false
  settle p none = do mark_passed p; save; event (name p) "end" ""; pure true

module _ {W P : Type 0} ⦃sys : System W⦄ (name : P → String) (same : P → P → Bool)
    (stage : P → Exec (Machine W P) Done) where
  unfoldable pub run_stage : P → Exec (Machine W P) Bool
  run_stage p = do
    event (name p) "start" ""
    failure ← attempt stage_catches (stage p)
    settle name p failure

  -- One round of the loop.
  unfoldable pub round : P → Exec (Machine W P) Bool
  round p m = if has_passed same p m.state.passed then (ok true, m) else run_stage p m

  -- The loop: whether every stage has passed.
  unfoldable pub run_stages : List P → Exec (Machine W P) Bool
  run_stages [] = pure true
  run_stages (p ∷ ps) = do go_on ← round p; if go_on then run_stages ps else pure false
