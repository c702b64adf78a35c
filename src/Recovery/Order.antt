-- ===== src/Recovery/Order.antt =====
-- The loop over the stages runs them in order: what it makes of the list of stages that passed.
use mathlib.Core.List.{append-nil, append_assoc}
use k8s_dr.Prelude.{
  ℕ, zero, suc, String, Bool, true, false, Option, none, some, List, [], ◌∷◌, ◌++◌, Error, Result,
  Done, ok, err, Exec, pure, continue, ◌>>=◌, ◌≡◌, ◌≢◌, ◌⊎◌, inl, inr, refl, sym, ap, ◌∙◌, subst,
  arith, take, All, Bool-cases, if◌then◌else◌,
}
use k8s_dr.Recovery.State.{Machine, System, save, event}
use k8s_dr.Recovery.Runner.{
  stage_catches, caught, attempt, set_started, record_start, mark_passed, has_passed, settle,
  run_stage, round, run_stages,
}
use k8s_dr.Prelude.Keeps.{Keeps, Keeps-pure, Keeps-bind}
use k8s_dr.Recovery.Keeps.{OfState, Keeps-on_world, Keeps-save, Keeps-event}

-- Two stages of a list are told apart by `same`.
abbrev pub AllApart : {P : Type 0} → (P → P → Bool) → List P → P → Type 0
AllApart same done p = All (λ q. same q p ≡ false) done

abbrev pub Distinct : {P : Type 0} → (P → P → Bool) → List P → List P → Type 0
Distinct same done [] = Unit
Distinct same done (p ∷ ps) = AllApart same done p × Distinct same (done ++ p ∷ []) ps

abbrev pub IsDone : {P : Type 0} → List P → Option String → List P → Type 0
IsDone done started passed = passed ≡ done

abbrev pub PassedIs : {W P : Type 0} → List P → Machine W P → Type 0
PassedIs done = OfState (IsDone done)

-- The list is the stages in front and some of the rest, in order, and all of them after a run that is
-- complete.
abbrev pub Ordered : {W P : Type 0} → List P → List P → Result Bool × Machine W P → Type 0
Ordered done rest (r, m) =
    ((k : ℕ) × PassedIs (done ++ take k rest) m) × (r ≡ ok true → PassedIs (done ++ rest) m)

module _ {P : Type 0} (same : P → P → Bool) (same_refl : (p : P) → same p p ≡ true) where
  pub has_passed_apart :
      (p : P) (done : List P) → AllApart same done p → has_passed same p done ≡ false
  has_passed_apart p [] h = refl
  has_passed_apart p (q ∷ done) h = rw h.0 (has_passed_apart p done h.1)

  pub has_passed-append :
      (p : P) (done later : List P) → has_passed same p (done ++ p ∷ later) ≡ true
  has_passed-append p [] later = rw (same_refl p)
  has_passed-append p (q ∷ done) later = ground (arith, has_passed-append p done later)

module _ {W P : Type 0} ⦃sys : System W⦄ (name : P → String) (same : P → P → Bool)
    (stage : P → Exec (Machine W P) Done) where
  abbrev rest_of_settle : P → Exec (Machine W P) Bool
  rest_of_settle p = save >>= λ _. event (name p) "end" "" >>= λ _. pure true

  rest_of_settle-Keeps : (done : List P) (p : P) → Keeps (PassedIs done) (rest_of_settle p)
  rest_of_settle-Keeps done p =
      Keeps-bind _ _ (Keeps-save (IsDone done))
        (λ _. Keeps-bind _ _ (Keeps-event (IsDone done) _ _ _) (λ _. Keeps-pure true))

  settle-none :
      (done : List P) (p : P) (m : Machine W P)
      → PassedIs done m
      → PassedIs (done ++ p ∷ []) (settle name p none m).1
  unfolding settle mark_passed ◌>>=◌
  settle-none done p m h =
      (rest_of_settle-Keeps (done ++ p ∷ []) p).at _ (ap (λ (l : List P). l ++ p ∷ []) h)

  settle-some-Keeps :
      (done : List P) (p : P) (e : Error) → Keeps (PassedIs {W = W} done) (settle name p (some e))
  unfolding settle
  settle-some-Keeps done p e =
      Keeps-bind _ _ (Keeps-save (IsDone done))
        (λ _. Keeps-bind _ _ (Keeps-event (IsDone done) _ _ _) (λ _. Keeps-pure false))

  continue-false :
      (r : Result Done) (m : Machine W P) → (continue r (λ _. pure false) m).0 ≢ ok true
  unfolding pure
  continue-false (ok _) m = λ h. ground arith
  continue-false (err _) m = λ h. ground arith

  settle-some-ne : (p : P) (e : Error) (m : Machine W P) → (settle name p (some e) m).0 ≢ ok true
  unfolding settle ◌>>=◌ save
  settle-some-ne p e m = continue-false _ _

  -- What one stage makes of the list: it has passed, or the list is as before and the run stops.
  abbrev pub OneMore : List P → P → Result Bool × Machine W P → Type 0
  OneMore done p (r, m) = PassedIs (done ++ p ∷ []) m ⊎ (PassedIs done m × (r ≢ ok true))

  -- Behind the line of the start, and behind the stage.
  settle-OneMore :
      (done : List P) (p : P) (r : Result (Option Error)) (m : Machine W P)
      → PassedIs done m
      → OneMore done p (continue r (settle name p) m)
  settle-OneMore done p (ok none) m h = inl (settle-none done p m h)
  settle-OneMore done p (ok (some e)) m h =
      inr ((settle-some-Keeps done p e).at m h, settle-some-ne p e m)
  settle-OneMore done p (err e) m h = inr (h, λ k. ground arith)

  module _ (keeps : (done : List P) (p : P) → Keeps (PassedIs done) (stage p)) where
    caught-Keeps :
        (done : List P) (catches : Error → Bool) (r : Result Done) (m : Machine W P)
        → PassedIs done m
        → PassedIs done (caught catches r m).1
    caught-Keeps done catches (ok _) m h = h
    caught-Keeps done catches (err e) m h = elim (Bool-cases (catches e)) [
      | inl c ↦ rw c h
      | inr c ↦ rw c h
    ]

    attempt-OneMore :
        (done : List P) (p : P) (r : Result Done) (m : Machine W P)
        → PassedIs done m
        → OneMore done p (continue r (λ _. attempt stage_catches (stage p) >>= settle name p) m)
    unfolding attempt ◌>>=◌
    attempt-OneMore done p (ok _) m h =
        settle-OneMore done p _ _ (caught-Keeps done stage_catches _ _ ((keeps done p).at m h))
    attempt-OneMore done p (err e) m h = inr (h, λ k. ground arith)

    pub run_stage-OneMore :
        (done : List P) (p : P) (m : Machine W P)
        → PassedIs done m
        → OneMore done p (run_stage name same stage p m)
    unfolding run_stage ◌>>=◌
    run_stage-OneMore done p m h =
        attempt-OneMore done p _ _ ((Keeps-event (IsDone done) (name p) "start" "").at m h)

    Ordered-cons :
        (done : List P) (p : P) (ps : List P) (x : Result Bool × Machine W P)
        → Ordered (done ++ p ∷ []) ps x
        → Ordered done (p ∷ ps) x
    Ordered-cons done p ps x ((k, h), full) = (
      (suc k, h ∙ append_assoc done (p ∷ []) (take k ps)),
      λ e. full e ∙ append_assoc done (p ∷ []) ps,
    )

    abbrev next_round : List P → Bool → Exec (Machine W P) Bool
    next_round ps go_on = if go_on then run_stages name same stage ps else pure false

    module _ (done : List P) (p : P) (ps : List P)
        (ih : (j : ℕ) (m : Machine W P)
          → PassedIs ((done ++ p ∷ []) ++ take j ps) m
          → Ordered (done ++ p ∷ []) ps (run_stages name same stage ps m)) where
      stopped :
          (x : Result Bool × Machine W P)
          → OneMore done p x
          → x.0 ≢ ok true
          → Ordered done (p ∷ ps) x
      stopped (r, m) (inl h) ne = ((1, h), λ e. absurd (ne e))
      stopped (r, m) (inr h) ne = ((0, h.0 ∙ sym (append-nil done)), λ e. absurd (ne e))

      after_round :
          (r : Result Bool) (m : Machine W P)
          → OneMore done p (r, m)
          → Ordered done (p ∷ ps) (continue r (next_round ps) m)
      unfolding pure
      after_round (ok true) m (inl h) =
          Ordered-cons done p ps (run_stages name same stage ps m)
            (ih 0 m (h ∙ sym (append-nil (done ++ p ∷ []))))
      after_round (ok true) m (inr h) = absurd (h.1 refl)
      after_round (ok false) m h =
          stopped (ok false, m) (elim h [ inl a ↦ inl a | inr b ↦ inr (b.0, λ e. ground arith) ])
            (λ e. ground arith)
      after_round (err e) m h = stopped (err e, m) h (λ k. ground arith)

    module _ (same_refl : (p : P) → same p p ≡ true) where
      pub run_stages-Ordered :
          (done rest : List P) (j : ℕ) (m : Machine W P)
          → Distinct same done rest
          → PassedIs (done ++ take j rest) m
          → Ordered done rest (run_stages name same stage rest m)
      unfolding run_stages round pure ◌>>=◌
      run_stages-Ordered done [] zero m d h = ((0, h), λ e. h)
      run_stages-Ordered done [] (suc j) m d h = ((0, h), λ e. h)
      run_stages-Ordered done (p ∷ ps) zero m d h =
          let h' : PassedIs done m = h ∙ append-nil done in
          let e : has_passed same p m.state.passed ≡ false =
            subst (λ l. has_passed same p l ≡ false) (sym h')
              (has_passed_apart same same_refl p done d.0) in
          rw e (
            after_round done p ps (λ j m' k. run_stages-Ordered (done ++ p ∷ []) ps j m' d.1 k) _ _
              (run_stage-OneMore done p m h'))
      run_stages-Ordered done (p ∷ ps) (suc j) m d h =
          let e : has_passed same p m.state.passed ≡ true =
            subst (λ l. has_passed same p l ≡ true) (sym h)
              (has_passed-append same same_refl p done (take j ps)) in
          rw e (
            Ordered-cons done p ps (run_stages name same stage ps m) (
              run_stages-Ordered (done ++ p ∷ []) ps j m d.1
                (h ∙ sym (append_assoc done (p ∷ []) (take j ps)))))

module _ {W P : Type 0} ⦃sys : System W⦄ (done : List P) where
  Keeps-set_started : (text : String) → Keeps (PassedIs {W = W} done) (set_started text)
  unfolding set_started
  Keeps-set_started text = record { at = λ s h. h }

  pub Keeps-record_start :
      (started : Option String) → Keeps (PassedIs {W = W} done) (record_start started)
  unfolding record_start
  Keeps-record_start (some t) = Keeps-pure tt
  Keeps-record_start none =
      Keeps-bind _ _ (Keeps-on_world (IsDone done) _)
        (λ now. Keeps-bind _ _ (Keeps-set_started _) (λ _. Keeps-save (IsDone done)))
