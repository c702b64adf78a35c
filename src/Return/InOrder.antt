-- ===== src/Return/InOrder.antt =====
-- `run` of scripts/return_to_primary.py: the stages pass in the order of the runbook.
use k8s_dr.Prelude.{
  ℕ, String, Bool, true, false, Option, none, some, List, [], ◌∷◌, Error, Result, Done, ok, err,
  pure, continue, ◌>>=◌, ◌≡◌, ◌≢◌, ◌⊎◌, refl, arith, take, Bool-cases, inl, inr,
}
use k8s_dr.Recovery.State.{State, Machine, System}
use k8s_dr.Recovery.Runner.{caught, attempt, pending}
use k8s_dr.Recovery.Run.{Stage}
use k8s_dr.Prelude.Keeps.{Keeps, Keeps-pure, Keeps-ask, Keeps-bind}
use k8s_dr.Recovery.Keeps.{
  Keeps-save, Keeps-on_world, Keeps-set_values, Keeps-event, Keeps-init_roots, Keeps-inventory,
}
use k8s_dr.Recovery.Order.{
  IsDone, PassedIs, Distinct, Ordered, run_stages-Ordered, Keeps-record_start,
}
use k8s_dr.Return.Keeps.{Keeps-require_environment, Keeps-phase_of}
use k8s_dr.Return.Run.{
  Phase, phases, phase_name, same_phase, early_catches, belongs_elsewhere, phase_of,
  keep_recovery_started, find_recovery, prepare, note_failure, archive_files, conclude,
  after_prepare, run_belonging, run_phases, run_return,
}

phases-Distinct : Distinct same_phase [] phases
phases-Distinct = ground arith

same_phase_refl : (p : Phase) → same_phase p p ≡ true
same_phase_refl Phase.start_primary = refl
same_phase_refl _ = refl

module _ {W : Type 0} ⦃sys : System W⦄ (recovered : State Stage) (done : List Phase) where
  Keeps-keep_recovery_started :
      (t : Option String) → Keeps (PassedIs {W = W} done) (keep_recovery_started recovered t)
  unfolding keep_recovery_started
  Keeps-keep_recovery_started none = Keeps-pure tt
  Keeps-keep_recovery_started (some t) =
      Keeps-bind _ _ (Keeps-set_values (IsDone done) _) (λ _. Keeps-save (IsDone done))

  Keeps-find_recovery : (b : Bool) → Keeps (PassedIs {W = W} done) (find_recovery recovered b)
  unfolding find_recovery
  Keeps-find_recovery false = Keeps-pure tt
  Keeps-find_recovery true =
      Keeps-bind _ _ (Keeps-require_environment (IsDone done) recovered)
        (λ _. Keeps-inventory (IsDone done))

  Keeps-prepare : (todo : List Phase) → Keeps (PassedIs {W = W} done) (prepare recovered todo)
  unfolding prepare
  Keeps-prepare todo = Keeps-bind _ _ (Keeps-init_roots (IsDone done)) (λ _. Keeps-find_recovery _)

  Keeps-note_failure :
      (todo : List Phase) (e : Error)
      → Keeps (PassedIs {W = W} done) (note_failure recovered todo e)
  unfolding note_failure
  Keeps-note_failure [] e = Keeps-pure tt
  Keeps-note_failure (p ∷ ps) e = Keeps-event (IsDone done) _ _ _

  Keeps-archive_files : Keeps (PassedIs {W = W} done) (archive_files recovered)
  unfolding archive_files
  Keeps-archive_files = record { at = λ s h. h }

  Keeps-conclude : (complete : Bool) → Keeps (PassedIs {W = W} done) (conclude recovered complete)
  unfolding conclude
  Keeps-conclude false = Keeps-pure 1
  Keeps-conclude true = Keeps-bind _ _ (Keeps-ask _) (λ _.
      Keeps-bind _ _ (Keeps-on_world (IsDone done) _)
        (λ _. Keeps-bind _ _ Keeps-archive_files (λ _. Keeps-pure 0)))

module _ {W : Type 0} ⦃sys : System W⦄ (recovered : State Stage) where
  -- The stages that passed are the first ones, and all of them at status 0.
  abbrev pub ReturnInOrder : Result ℕ × Machine W Phase → Type 0
  ReturnInOrder x =
      ((k : ℕ) × (x.1.state.passed ≡ take k phases)) × ((x.0 ≢ ok 0) ⊎ (x.1.state.passed ≡ phases))

  conclude-false : (m : Machine W Phase) → (conclude recovered false m).0 ≢ ok 0
  unfolding conclude pure
  conclude-false m = λ h. ground arith

  conclude-InOrder :
      (r : Result Bool) (m : Machine W Phase)
      → Ordered [] phases (r, m)
      → ReturnInOrder (continue r (conclude recovered) m)
  conclude-InOrder (ok true) m ((k, h), full) = (
    (k, (Keeps-conclude recovered (take k phases) true).at m h),
    inr ((Keeps-conclude recovered phases true).at m (full refl)),
  )
  conclude-InOrder (ok false) m ((k, h), full) =
      ((k, (Keeps-conclude recovered (take k phases) false).at m h), inl (conclude-false m))
  conclude-InOrder (err e) m ((k, h), full) = ((k, h), inl (λ z. ground arith))

  one_status :
      (r : Result Done) (m : Machine W Phase) → (continue {B = ℕ} r (λ _. pure 1) m).0 ≢ ok 0
  unfolding pure
  one_status (ok _) m = λ h. ground arith
  one_status (err _) m = λ h. ground arith

  after_prepare-InOrder :
      (j : ℕ) (todo : List Phase) (r : Result (Option Error)) (m : Machine W Phase)
      → m.state.passed ≡ take j phases
      → ReturnInOrder (continue r (after_prepare recovered todo) m)
  unfolding after_prepare ◌>>=◌
  after_prepare-InOrder j todo (ok none) m h = conclude-InOrder _ _ (
      run_stages-Ordered phase_name same_phase (phase_of recovered)
        (λ done p. Keeps-phase_of (IsDone done) recovered p) same_phase_refl [] phases j m
        phases-Distinct h)
  after_prepare-InOrder j todo (ok (some e)) m h = (
    (
      j,
      (Keeps-bind _ _ (Keeps-note_failure recovered (take j phases) todo e) (λ _. Keeps-pure 1)).at
          m h,
    ),
    inl (one_status _ _),
  )
  after_prepare-InOrder j todo (err e) m h = ((j, h), inl (λ z. ground arith))

  caught-first :
      (j : ℕ) (r : Result Done) (m : Machine W Phase)
      → m.state.passed ≡ take j phases
      → (caught early_catches r m).1.state.passed ≡ take j phases
  caught-first j (ok _) m h = h
  caught-first j (err e) m h = elim (Bool-cases (early_catches e)) [
    | inl c ↦ rw c h
    | inr c ↦ rw c h
  ]

  run_belonging-InOrder :
      (j : ℕ) (elsewhere : Bool) (todo : List Phase) (m : Machine W Phase)
      → m.state.passed ≡ take j phases
      → ReturnInOrder (run_belonging recovered elsewhere todo m)
  unfolding run_belonging attempt pure ◌>>=◌
  run_belonging-InOrder j true todo m h = ((j, h), inl (λ z. ground arith))
  run_belonging-InOrder j false todo m h =
      after_prepare-InOrder j todo _ _
        (caught-first j _ _ ((Keeps-prepare recovered (take j phases) todo).at m h))

  kept-InOrder :
      (j : ℕ) (todo : List Phase) (r : Result Done) (m : Machine W Phase)
      → m.state.passed ≡ take j phases
      → ReturnInOrder (
          continue r
            (λ _ m.
              run_belonging recovered
                (belongs_elsewhere m.state.values.recovery_started recovered.started)
                todo
                m)
            m)
  kept-InOrder j todo (ok _) m h = run_belonging-InOrder j _ todo m h
  kept-InOrder j todo (err e) m h = ((j, h), inl (λ z. ground arith))

  run_phases-InOrder :
      (j : ℕ) (todo : List Phase) (m : Machine W Phase)
      → m.state.passed ≡ take j phases
      → ReturnInOrder (run_phases recovered todo m)
  unfolding run_phases ◌>>=◌
  run_phases-InOrder j todo m h =
      kept-InOrder j todo _ _
        ((Keeps-keep_recovery_started recovered (take j phases) recovered.started).at m h)

  started_return-InOrder :
      (j : ℕ) (r : Result Done) (m : Machine W Phase)
      → m.state.passed ≡ take j phases
      → ReturnInOrder
          (continue r (λ _ m. run_phases recovered (pending same_phase phases m.state.passed) m) m)
  started_return-InOrder j (ok _) m h = run_phases-InOrder j _ m h
  started_return-InOrder j (err e) m h = ((j, h), inl (λ z. ground arith))

  -- A return that starts from the first j of its stages, as a new one or one that is resumed does, ends
  -- with the first k of them passed for some k, however it ends, and with status 0 only if all six have
  -- passed.
  pub run_return-InOrder :
      (j : ℕ) (m : Machine W Phase)
      → m.state.passed ≡ take j phases
      → ReturnInOrder (run_return recovered m)
  unfolding run_return ◌>>=◌
  run_return-InOrder j m h =
      started_return-InOrder j _ _ ((Keeps-record_start (take j phases) m.state.started).at m h)
