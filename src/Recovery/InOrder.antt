-- ===== src/Recovery/InOrder.antt =====
-- `run` of scripts/recover.py with no --through: the stages pass in the order of the runbook.
use k8s_dr.Prelude.{
  ℕ, Bool, true, false, Option, none, some, List, [], ◌∷◌, Error, Result, Done, ok, err, pure,
  continue, ◌>>=◌, ◌≡◌, ◌≢◌, ◌⊎◌, refl, arith, take, Bool-cases, inl, inr,
}
use k8s_dr.Recovery.State.{Machine, System}
use k8s_dr.Recovery.Runner.{caught, attempt}
use k8s_dr.Prelude.Keeps.{Keeps, Keeps-pure, Keeps-ask, Keeps-bind}
use k8s_dr.Recovery.Keeps.{
  Keeps-event, Keeps-init_roots, Keeps-inventory, Keeps-require_recorded_environment,
}
use k8s_dr.Recovery.StageKeeps.{Keeps-stage_of}
use k8s_dr.Recovery.Order.{
  IsDone, PassedIs, Distinct, Ordered, run_stages-Ordered, Keeps-record_start,
}
use k8s_dr.Recovery.Run.{
  Stage, stages, stage_name, same_stage, setup_catches, stage_of, find_environment, set_up,
  note_early, finish_run, after_set_up, run_stages_left, run,
}

abbrev pub At : {W : Type 0} → List Stage → Machine W Stage → Type 0
At done m = m.state.passed ≡ done

pub stages-Distinct : Distinct same_stage [] stages
stages-Distinct = ground arith

pub same_stage_refl : (p : Stage) → same_stage p p ≡ true
same_stage_refl Stage.preflight = refl
same_stage_refl _ = refl

module _ {W : Type 0} ⦃sys : System W⦄ (done : List Stage) where
  Keeps-find_environment : (b : Bool) → Keeps (PassedIs {W = W} done) (find_environment b)
  unfolding find_environment
  Keeps-find_environment false = Keeps-pure tt
  Keeps-find_environment true =
      Keeps-bind _ _ (Keeps-require_recorded_environment (IsDone done))
        (λ _. Keeps-inventory (IsDone done))

  Keeps-set_up : (todo passed : List Stage) → Keeps (PassedIs {W = W} done) (set_up todo passed)
  unfolding set_up
  Keeps-set_up todo passed =
      Keeps-bind _ _ (Keeps-init_roots (IsDone done)) (λ _. Keeps-find_environment _)

  Keeps-note_early :
      (todo : List Stage) (e : Error) → Keeps (PassedIs {W = W} done) (note_early todo e)
  unfolding note_early
  Keeps-note_early [] e = Keeps-pure tt
  Keeps-note_early (p ∷ ps) e = Keeps-event (IsDone done) _ _ _

  Keeps-finish_run : (complete : Bool) → Keeps (PassedIs {W = W} done) (finish_run complete)
  unfolding finish_run
  Keeps-finish_run false = Keeps-pure 1
  Keeps-finish_run true = Keeps-bind _ _ (Keeps-ask _) (λ _. Keeps-pure 0)

module _ {W : Type 0} ⦃sys : System W⦄ where
  -- The list of stages that passed is the first ones of the runbook, and all of them at status 0.
  abbrev pub InOrder : Result ℕ × Machine W Stage → Type 0
  InOrder x =
      ((k : ℕ) × (x.1.state.passed ≡ take k stages)) × ((x.0 ≢ ok 0) ⊎ (x.1.state.passed ≡ stages))

  finish_run-ok : (m : Machine W Stage) → (finish_run false m).0 ≢ ok 0
  unfolding finish_run pure
  finish_run-ok m = λ h. ground arith

  finish-InOrder :
      (r : Result Bool) (m : Machine W Stage)
      → Ordered [] stages (r, m)
      → InOrder (continue r finish_run m)
  finish-InOrder (ok true) m ((k, h), full) = (
    (k, (Keeps-finish_run (take k stages) true).at m h),
    inr ((Keeps-finish_run stages true).at m (full refl)),
  )
  finish-InOrder (ok false) m ((k, h), full) =
      ((k, (Keeps-finish_run (take k stages) false).at m h), inl (finish_run-ok m))
  finish-InOrder (err e) m ((k, h), full) = ((k, h), inl (λ z. ground arith))

  stages-Keeps : (done : List Stage) (p : Stage) → Keeps (PassedIs {W = W} done) (stage_of p)
  stages-Keeps done p = Keeps-stage_of (IsDone done) p

  note_status :
      (r : Result Done) (m : Machine W Stage) → (continue {B = ℕ} r (λ _. pure 1) m).0 ≢ ok 0
  unfolding pure
  note_status (ok _) m = λ h. ground arith
  note_status (err _) m = λ h. ground arith

  after_set_up-InOrder :
      (j : ℕ) (todo : List Stage) (r : Result (Option Error)) (m : Machine W Stage)
      → m.state.passed ≡ take j stages
      → InOrder (continue r (after_set_up todo none) m)
  unfolding after_set_up ◌>>=◌
  after_set_up-InOrder j todo (ok none) m h = finish-InOrder _ _ (
      run_stages-Ordered stage_name same_stage stage_of stages-Keeps same_stage_refl [] stages j m
        stages-Distinct h)
  after_set_up-InOrder j todo (ok (some e)) m h = (
    (j, (Keeps-bind _ _ (Keeps-note_early (take j stages) todo e) (λ _. Keeps-pure 1)).at m h),
    inl (note_status _ _),
  )
  after_set_up-InOrder j todo (err e) m h = ((j, h), inl (λ z. ground arith))

  caught-At :
      (j : ℕ) (r : Result Done) (m : Machine W Stage)
      → m.state.passed ≡ take j stages
      → (caught setup_catches r m).1.state.passed ≡ take j stages
  caught-At j (ok _) m h = h
  caught-At j (err e) m h = elim (Bool-cases (setup_catches e)) [ inl c ↦ rw c h | inr c ↦ rw c h ]

  run_stages_left-InOrder :
      (j : ℕ) (m : Machine W Stage)
      → m.state.passed ≡ take j stages
      → InOrder (run_stages_left none m)
  unfolding run_stages_left attempt ◌>>=◌
  run_stages_left-InOrder j m h =
      after_set_up-InOrder j _ _ _ (caught-At j _ _ ((Keeps-set_up (take j stages) _ _).at m h))

  started-InOrder :
      (j : ℕ) (r : Result Done) (m : Machine W Stage)
      → m.state.passed ≡ take j stages
      → InOrder (continue r (λ _. run_stages_left none) m)
  started-InOrder j (ok _) m h = run_stages_left-InOrder j m h
  started-InOrder j (err e) m h = ((j, h), inl (λ z. ground arith))

  -- A run of all stages that starts from the first j of them, as a new run or one that is resumed
  -- does, ends with the first k of them passed for some k, however it ends, and with status 0 only if all
  -- ten have passed.
  pub run-InOrder :
      (j : ℕ) (m : Machine W Stage) → m.state.passed ≡ take j stages → InOrder (run none m)
  unfolding run ◌>>=◌
  run-InOrder j m h =
      started-InOrder j _ _ ((Keeps-record_start (take j stages) m.state.started).at m h)
