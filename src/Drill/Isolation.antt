-- ===== src/Drill/Isolation.antt =====
-- No order of the commands isolates the primary without a guard and a write log that passed.
use k8s_dr.Prelude.{
  ◌≡◌, refl, ◌⊎◌, inl, inr, String, Bool, true, false, ◌&&◌, ◌||◌, Option, none, some, List, [],
  ◌∷◌, Error, Result, ok, err, Done, pure, arith, Bool-cases,
}
use k8s_dr.Prelude.Keeps.{Keeps, Keeps-pure, Keeps-raise, Keeps-if, Keeps-bind}
use k8s_dr.Drill.State.{
  Drill, DrillState, DrillSystem, Failure, Step, same_step, save, set_state, put_isolated,
  put_restarted, put_recovery_run, put_return_run, put_dataset, put_restored, put_result, Measured,
  RunNote,
}
use k8s_dr.Drill.Keeps.{Frame, drill_rules}
use k8s_dr.Drill.StepKeeps.{
  Keeps-guard, Keeps-writes, Keeps-isolate, Keeps-wait_step, Keeps-report, Keeps-return_step,
  Keeps-finish,
}
use k8s_dr.Drill.Waits.{recovery_run, return_run, keep_note}
use k8s_dr.Drill.Main.{
  is_empty, step_passed, Gate, gate, action, note_failed, step_catches, step_ended, keep_failure,
  keep_success, ended, run_step, begin, pass_gate, main,
}
use k8s_dr.Drill.Issue.{finish, store_result, note_setup, no_steps, with_ending}
use k8s_dr.Drill.Waits
use k8s_dr.Drill.Reached.{loaded, Reached, fresh, command, finished, elsewhere, reloaded}

-- A step that has passed at least once.
unfoldable pub ever_passed : Step → List (Step × Bool) → Bool
ever_passed s [] = false
ever_passed s ((t, passed) ∷ rest) =
    let later = ever_passed s rest in (same_step s t && passed) || later

step_passed-ever :
    (s : Step) (steps : List (Step × Bool))
    → step_passed s steps ≡ true
    → ever_passed s steps ≡ true
unfolding step_passed ever_passed
step_passed-ever s [] e = absurd (ground arith)
step_passed-ever s ((t, passed) ∷ rest) e =
    let later = step_passed-ever s rest in ground (arith, later)

abbrev pub Prepared : List (Step × Bool) → Type 0
Prepared steps = (ever_passed Step.guard steps ≡ true) × (ever_passed Step.writes steps ≡ true)

abbrev pub SafeIsolation : Option String → List (Step × Bool) → Type 0
SafeIsolation isolated steps = (isolated ≡ none) ⊎ Prepared steps

Prepared-cons :
    (p : Step × Bool) (steps : List (Step × Bool)) → Prepared steps → Prepared (p ∷ steps)
unfolding ever_passed
Prepared-cons (t, b) steps h = (ground arith, ground arith)

SafeIsolation-cons :
    (isolated : Option String) (p : Step × Bool) (steps : List (Step × Bool))
    → SafeIsolation isolated steps
    → SafeIsolation isolated (p ∷ steps)
SafeIsolation-cons isolated p steps (inl h) = inl h
SafeIsolation-cons isolated p steps (inr h) = inr (Prepared-cons p steps h)

abbrev SavedHolds : (Option String → List (Step × Bool) → Type 0) → Option DrillState → Type 0
SavedHolds R none = Unit {0}
SavedHolds R (some s) = R s.isolated_at s.steps

note_failed-keeps :
    (P : Option String → List (Step × Bool) → Type 0) (f : Failure) (state : DrillState)
    (first : Option Failure)
    → P state.isolated_at state.steps
    → P (note_failed f state first).isolated_at (note_failed f state first).steps
note_failed-keeps P f state none h = h
note_failed-keeps P f state (some g) h = h

note_setup-keeps :
    (P : Option String → List (Step × Bool) → Type 0) (state : DrillState)
    → P state.isolated_at state.steps
    → P (note_setup state).isolated_at (note_setup state).steps
note_setup-keeps P state h = elim (Bool-cases (no_steps state.failed (is_empty state.steps))) [
  | inl e ↦ rw e h
  | inr e ↦ rw e h
]

-- A fact `P` on the state in memory, and a fact `R` on the saved one.
module _ {W : Type 0} (P R : Option String → List (Step × Bool) → Type 0)
    (weaken : (i : Option String) (steps : List (Step × Bool)) → P i steps → R i steps) where
  abbrev Held : Drill W → Type 0
  Held m = P m.state.isolated_at m.state.steps × SavedHolds R m.saved

  Held-Frame : Frame Held
  unfolding save
  Held-Frame = record { world = λ m w h. h; saving = record { at = λ m h. (h.0, weaken _ _ h.0) } }

  Keeps-name : (id : String) → Keeps Held (set_state (λ s. record s { id = some id }))
  unfolding set_state
  Keeps-name id = record { at = λ m h. h }

  Keeps-put_restarted : (t : String) → Keeps Held (put_restarted t)
  unfolding put_restarted set_state
  Keeps-put_restarted t = record { at = λ m h. h }

  Keeps-put_dataset : (t : String) → Keeps Held (put_dataset t)
  unfolding put_dataset set_state
  Keeps-put_dataset t = record { at = λ m h. h }

  Keeps-put_restored : (t : String) → Keeps Held (put_restored t)
  unfolding put_restored set_state
  Keeps-put_restored t = record { at = λ m h. h }

  Keeps-put_result : (r : Measured) → Keeps Held (put_result r)
  unfolding put_result set_state
  Keeps-put_result r = record { at = λ m h. h }

  Keeps-keep_note : (key : Waits.Key) (n : RunNote) → Keeps Held (keep_note key n)
  unfolding keep_note put_recovery_run put_return_run set_state
  Keeps-keep_note recovery_run n = record { at = λ m h. h }
  Keeps-keep_note return_run n = record { at = λ m h. h }

  module _ ⦃sys : DrillSystem W⦄ where
    Keeps-action :
        (s : Step)
        → ((t : String) → Keeps Held (put_isolated t)) ⊎ (same_step s Step.isolate ≡ false)
        → Keeps Held (action s)
    unfolding action
    Keeps-action Step.guard h = Keeps-guard Held Held-Frame Keeps-put_dataset
    Keeps-action Step.writes h = Keeps-writes Held Held-Frame
    Keeps-action Step.isolate (inl h) = Keeps-isolate Held Held-Frame h
    Keeps-action Step.isolate (inr h) = absurd (ground arith)
    Keeps-action Step.wait h =
        Keeps-wait_step Held Held-Frame Keeps-put_restarted (Keeps-keep_note recovery_run)
    Keeps-action Step.report h = Keeps-report Held Held-Frame Keeps-put_result Keeps-put_restored
    Keeps-action Step.return h =
        Keeps-return_step Held Held-Frame Keeps-put_restarted (Keeps-keep_note return_run)

    Keeps-note_setup : Keeps Held (set_state note_setup)
    unfolding set_state
    Keeps-note_setup = record { at = λ m h. (note_setup-keeps P m.state h.0, h.1) }

    Keeps-with_ending :
        (environ : List (String × String)) → Keeps Held (set_state (with_ending environ))
    unfolding set_state
    Keeps-with_ending environ = record { at = λ m h. h }

    Keeps-store_result : Keeps Held store_result
    unfolding store_result
    Keeps-store_result = record { at = λ m h. h }

    Keeps-finished : Keeps Held finish
    Keeps-finished =
        Keeps-finish Held Held-Frame Keeps-name Keeps-note_setup Keeps-with_ending
          Keeps-store_result

    module _
        (more : (i : Option String) (p : Step × Bool) (steps : List (Step × Bool))
          → P i steps
          → P i (p ∷ steps)) where
      Keeps-step_ended : (s : Step) (b : Bool) → Keeps Held (set_state (step_ended s b))
      unfolding set_state
      Keeps-step_ended s b = record { at = λ m h. (more _ _ _ h.0, h.1) }

      Keeps-keep_success : (s : Step) → Keeps Held (keep_success s)
      unfolding keep_success
      Keeps-keep_success s = search (drill_rules, Keeps-step_ended, Held-Frame) depth 8

      Keeps-note_ended :
          (s : Step) (f : Failure)
          → Keeps Held (set_state (λ state. step_ended s false (note_failed f state state.failed)))
      unfolding set_state
      Keeps-note_ended s f = record {
        at = λ m h. (more _ _ _ (note_failed-keeps P f m.state m.state.failed h.0), h.1);
      }

      Keeps-keep_failure : (s : Step) (e : Error) → Keeps Held (keep_failure s e)
      unfolding keep_failure
      Keeps-keep_failure s e = search (drill_rules, Keeps-note_ended, Held-Frame) depth 8

      Keeps-ended : (s : Step) (r : Result Done) → Keeps Held (ended s r)
      Keeps-ended s (ok a) = Keeps-keep_success s
      Keeps-ended s (err e) = Keeps-if (step_catches e) _ _ (Keeps-keep_failure s e) (Keeps-raise e)

      Keeps-run_step : (s : Step) → Keeps Held (action s) → Keeps Held (run_step s)
      unfolding run_step
      Keeps-run_step s k = record {
        at = λ m h. let (r, m') = action s m in (Keeps-ended s r).at m' (k.at m h);
      }

      Keeps-begin : (s : Step) → Keeps Held (begin s)
      unfolding begin
      Keeps-begin Step.guard = search (drill_rules, Keeps-name, Held-Frame) depth 8
      Keeps-begin Step.writes = Keeps-pure tt
      Keeps-begin Step.isolate = Keeps-pure tt
      Keeps-begin Step.wait = Keeps-pure tt
      Keeps-begin Step.report = Keeps-pure tt
      Keeps-begin Step.return = Keeps-pure tt

      Keeps-pass_gate : (s : Step) (g : Gate) → Keeps Held (action s) → Keeps Held (pass_gate s g)
      Keeps-pass_gate s Gate.refuse k = Keeps-pure 1
      Keeps-pass_gate s Gate.nothing_to_do k = Keeps-pure 0
      Keeps-pass_gate s Gate.run_it k = Keeps-bind _ _ (Keeps-begin s) (λ _. Keeps-run_step s k)

-- The gate of isolate.
gate-Prepared :
    (state : DrillState) → (gate state Step.isolate ≡ Gate.run_it) → Prepared state.steps
unfolding gate
gate-Prepared state e =
    let g = step_passed-ever Step.guard state.steps in
    let w = step_passed-ever Step.writes state.steps in (g (ground arith), w (ground arith))

loaded-Safe :
    (saved : Option DrillState)
    → SavedHolds SafeIsolation saved
    → SafeIsolation (loaded saved).isolated_at (loaded saved).steps
loaded-Safe none h = inl refl
loaded-Safe (some state) h = h

module _ {W : Type 0} ⦃sys : DrillSystem W⦄ where
  Keeps-isolated_at :
      (t : String)
      → Keeps
          (Held {W = W} (λ i steps. Prepared steps) SafeIsolation (λ i steps q. inr q))
          (put_isolated t)
  unfolding put_isolated set_state
  Keeps-isolated_at t = record { at = λ m h. h }

  abbrev Safe : Drill W → Type 0
  Safe = Held SafeIsolation SafeIsolation (λ i steps h. h)

  -- Any other command.
  main-Safe :
      (s : Step) → same_step s Step.isolate ≡ false → (m : Drill W) → Safe m → Safe (main s m).1
  unfolding main
  main-Safe s e m h =
      let k = Keeps-action SafeIsolation SafeIsolation (λ i steps h. h) s (inr e) in
      (Keeps-pass_gate SafeIsolation SafeIsolation (λ i steps h. h) SafeIsolation-cons s
          (gate m.state s) k).at
        m h

  pass_isolate :
      (g : Gate) (m : Drill W)
      → (g ≡ Gate.run_it → Prepared m.state.steps)
      → Safe m
      → Safe (pass_gate Step.isolate g m).1
  unfolding pure
  pass_isolate Gate.refuse m p h = h
  pass_isolate Gate.nothing_to_do m p h = h
  pass_isolate Gate.run_it m p h =
      let weaken : (i : Option String) (steps : List (Step × Bool))
          → Prepared steps
          → SafeIsolation i steps =
        λ i steps q. inr q in
      let k =
        Keeps-action (λ i steps. Prepared steps) SafeIsolation weaken Step.isolate
          (inl (λ t. Keeps-isolated_at t)) in
      let q =
        (Keeps-pass_gate (λ i steps. Prepared steps) SafeIsolation weaken (λ i. Prepared-cons)
            Step.isolate Gate.run_it k).at
          m (p refl, h.1) in
      (weaken _ _ q.0, q.1)

  command-Safe : (s : Step) (m : Drill W) → Safe m → Safe (main s m).1
  unfolding main
  command-Safe Step.isolate m h =
      pass_isolate (gate m.state Step.isolate) m (gate-Prepared m.state) h
  command-Safe Step.guard m h = main-Safe Step.guard refl m h
  command-Safe Step.writes m h = main-Safe Step.writes refl m h
  command-Safe Step.wait m h = main-Safe Step.wait refl m h
  command-Safe Step.report m h = main-Safe Step.report refl m h
  command-Safe Step.return m h = main-Safe Step.return refl m h

  Reached-Safe : {m : Drill W} → Reached m → Safe m
  Reached-Safe (fresh w) = (inl refl, tt)
  Reached-Safe (command s r) = command-Safe s _ (Reached-Safe r)
  Reached-Safe (finished r) =
      (Keeps-finished SafeIsolation SafeIsolation (λ i steps h. h)).at _ (Reached-Safe r)
  Reached-Safe (elsewhere w r) = Reached-Safe r
  Reached-Safe (reloaded r) = let h = Reached-Safe r in (loaded-Safe _ h.1, h.1)

  -- In every drill that the commands reach, in whatever order they run and wherever one of them stops:
  -- the primary is isolated only if a guard and a write log have passed.
  pub Reached-SafeIsolation :
      (m : Drill W) → Reached m → (m.state.isolated_at ≡ none) ⊎ Prepared m.state.steps
  Reached-SafeIsolation m r = (Reached-Safe r).0
