-- ===== src/Drill/Passing.antt =====
-- What a command of scripts/drill.py that exits with 0 has reached and saved.
use k8s_dr.Prelude.{
  ℕ, ◌≡◌, ◌≢◌, refl, ◌⊎◌, Bool, true, false, some, Error, Result, ok, err, Done, Exec, pure, ◌>>=◌,
  ◌>>◌, arith,
}
use k8s_dr.Prelude.Keeps.{
  Ensures, OnOk, OnOk-of, continue-keeping, Ensures-raise, Ensures-bind, Ensures-if,
}
use k8s_dr.Drill.State.{Drill, DrillState, DrillSystem, Step, save, set_state}
use k8s_dr.Drill.Commands.{try_push}
use k8s_dr.Drill.Keeps.{Frame, Keeps-try_push}
use k8s_dr.Drill.Main.{
  Gate, gate, has_text, step_catches, step_ended, action, keep_failure, keep_success, ended,
  run_step, pass_gate, main,
}
use k8s_dr.Drill.Ensured.{Recovered, Ensures-wait_step}
use k8s_dr.Drill.Ensured.Returns.{Returned}

-- An exit status of 0 means `Q`.
abbrev IfZero : {W : Type 0} → (Drill W → Type 0) → ℕ → Drill W → Type 0
IfZero Q status m = status ≡ 0 → Q m

OnOk-zero :
    {W : Type 0} (Q : Drill W → Type 0) (r : Result ℕ) (m : Drill W)
    → OnOk (IfZero Q) r m
    → r ≡ ok 0
    → Q m
OnOk-zero Q (ok n) m h e = h (ground arith)
OnOk-zero Q (err x) m h e = absurd (ground arith)

-- What holds of the state and is in drill.json.
abbrev Stored : {W : Type 0} → (DrillState → Type 0) → Drill W → Type 0
Stored P m = P m.state × (m.saved ≡ some m.state)

Stored-Frame : {W : Type 0} (P : DrillState → Type 0) → Frame (Stored {W = W} P)
unfolding save
Stored-Frame P = record { world = λ m w h. h; saving = record { at = λ m h. (h.0, refl) } }

-- The end of `keep_success`.
abbrev last_copy : {W : Type 0} → ⦃sys : DrillSystem W⦄ → Exec (Drill W) ℕ
last_copy = do try_push; pure 0

module _ {W : Type 0} ⦃sys : DrillSystem W⦄ (P : DrillState → Type 0)
    (more : (s : Step) (b : Bool) (state : DrillState) → P state → P (step_ended s b state)) where
  pushed_end : (m : Drill W) → Stored P m → OnOk (IfZero (Stored P)) (last_copy m).0 (last_copy m).1
  unfolding ◌>>=◌
  pushed_end m h =
      continue-keeping (IfZero (Stored P)) (Stored P) (try_push m).0 (λ _. pure 0) (try_push m).1
        (λ a m' k e. k)
        (OnOk-of (Stored P) (try_push m).0 (try_push m).1
          ((Keeps-try_push (Stored P) (Stored-Frame P)).at m h))

  keep_success-Stored :
      (s : Step) (m : Drill W)
      → P m.state
      → OnOk (IfZero (Stored P)) (keep_success s m).0 (keep_success s m).1
  unfolding keep_success set_state save ◌>>=◌
  keep_success-Stored s m h = pushed_end _ (more s true m.state h, refl)

  status_one : (Q : Drill W → Type 0) → Ensures {S = Drill W} (IfZero Q) (pure 1)
  unfolding pure
  status_one Q = record { at = λ m e. absurd (ground arith) }

  keep_failure-Stored :
      (Q : Drill W → Type 0) (s : Step) (e : Error)
      → Ensures {S = Drill W} (IfZero Q) (keep_failure s e)
  unfolding keep_failure
  keep_failure-Stored Q s e =
      Ensures-bind _ _ (λ _. Ensures-bind _ _ (λ _. Ensures-bind _ _ (λ _. status_one Q)))

  ended-Stored :
      (s : Step) (r : Result Done) (m : Drill W)
      → OnOk (λ _ m. P m.state) r m
      → OnOk (IfZero (Stored P)) (ended s r m).0 (ended s r m).1
  ended-Stored s (ok a) m h = keep_success-Stored s m h
  ended-Stored s (err e) m h =
      (Ensures-if (step_catches e) _ _ (keep_failure-Stored (Stored P) s e) (Ensures-raise e)).at m

  run_step-Stored :
      (s : Step)
      → Ensures {S = Drill W} (λ _ m. P m.state) (action s)
      → Ensures {S = Drill W} (IfZero (Stored P)) (run_step s)
  unfolding run_step
  run_step-Stored s k = record {
    at = λ m. let (r, m') = action s m in ended-Stored s r m' (k.at m);
  }

  -- The gate that lets the command run, or refuses it.
  pass_gate-Stored :
      (s : Step) (g : Gate) (m : Drill W)
      → Ensures {S = Drill W} (λ _ m. P m.state) (action s)
      → (g ≡ Gate.nothing_to_do → Stored P m)
      → OnOk (IfZero (Stored P)) (pass_gate s g m).0 (pass_gate s g m).1
  unfolding pure
  pass_gate-Stored s Gate.refuse m k h = λ e. absurd (ground arith)
  pass_gate-Stored s Gate.nothing_to_do m k h = λ e. h refl
  pass_gate-Stored s Gate.run_it m k h = (Ensures-bind _ _ (λ _. run_step-Stored s k)).at m

-- How a drill is on the primary behind the command `return`: it was not isolated, an earlier command had recorded
-- that it started the machines, or this one started them or saw a run of Return succeed.
abbrev pub OnPrimary : {W : Type 0} → DrillSystem W → DrillState → DrillState → Type 0
OnPrimary sys before after =
    (has_text before.isolated_at ≡ false)
    ⊎ ((has_text before.primary_restarted ≡ true) ⊎ Returned sys after)

gate-wait : (state : DrillState) → gate state Step.wait ≢ Gate.nothing_to_do
unfolding gate
gate-wait state = λ e. ground arith

module _ {W : Type 0} ⦃sys : DrillSystem W⦄ where
  -- A command `wait` that exits with 0 has recorded a run of Recover that the API listed as completed with success:
  -- GITHUB_TOKEN dispatched it, and it was created at or after the isolation that drill.json holds. The state is saved.
  pub main-wait-succeeded :
      (m : Drill W)
      → (main Step.wait m).0 ≡ ok 0
      → Recovered sys (main Step.wait m).1.state
        × ((main Step.wait m).1.saved ≡ some (main Step.wait m).1.state)
  unfolding main action
  main-wait-succeeded m e =
      OnOk-zero (Stored (Recovered sys)) _ _
        (pass_gate-Stored (Recovered sys) (λ s b state h. h) Step.wait (gate m.state Step.wait) m
          (Ensures-wait_step ⦃sys = sys⦄) (λ g. absurd (gate-wait m.state g)))
        e
