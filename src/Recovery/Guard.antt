-- ===== src/Recovery/Guard.antt =====
-- When a stage runs: a test of what has passed, put in front of every stage, changes nothing.
use mathlib.Core.List.{append-nil, append_assoc}
use k8s_dr.Prelude.{
  ℕ, zero, suc, String, Bool, true, false, not, List, [], ◌∷◌, ◌++◌, out_of_fuel, Result, Done, ok,
  err, Exec, pure, raise_if, ask, continue, ◌>>=◌, ◌>>◌, ◌≡◌, refl, sym, ap, ◌∙◌, subst, take,
  if◌then◌else◌, inl, inr,
}
use k8s_dr.Recovery.State.{Machine, System}
use k8s_dr.Recovery.Runner.{
  stage_catches, caught, attempt, has_passed, settle, run_stage, round, run_stages,
}
use k8s_dr.Prelude.Keeps.{Keeps}
use k8s_dr.Recovery.Keeps.{Keeps-event}
use k8s_dr.Recovery.Order.{
  Distinct, PassedIs, IsDone, OneMore, run_stage-OneMore, has_passed_apart, has_passed-append,
}

-- A stage with a test in front: it raises unless what passed so far is expected.
pub guarded :
    {W P : Type 0}
    → (P → List P → Bool)
    → (P → Exec (Machine W P) Done)
    → P
    → Exec (Machine W P) Done
guarded expects stage p = do
  passed ← ask (λ m. ok m.state.passed)
  raise_if (not (expects p passed)) out_of_fuel
  stage p

-- Each stage of the rest expects just the stages in front of it.
abbrev pub Expected : {P : Type 0} → (P → List P → Bool) → List P → List P → Type 0
Expected expects done [] = Unit
Expected expects done (p ∷ ps) = (expects p done ≡ true) × Expected expects (done ++ p ∷ []) ps

module _ {W P : Type 0} ⦃sys : System W⦄ (name : P → String) (same : P → P → Bool)
    (same_refl : (p : P) → same p p ≡ true) (stage : P → Exec (Machine W P) Done)
    (expects : P → List P → Bool)
    (keeps : (done : List P) (p : P) → Keeps (PassedIs done) (stage p)) where
  guarded_lem :
      (done : List P) (p : P) (m : Machine W P)
      → expects p done ≡ true
      → PassedIs done m
      → guarded expects stage p m ≡ stage p m
  unfolding guarded ◌>>=◌
  guarded_lem done p m e h =
      let e' : expects p m.state.passed ≡ true = subst (λ l. expects p l ≡ true) (sym h) e in rw e'

  abbrev behind : P → Result Done × Machine W P → Result Bool × Machine W P
  behind p (r, m) = let (o, m') = caught stage_catches r m in continue o (settle name p) m'

  attempt-guarded :
      (done : List P) (p : P) (r : Result Done) (m : Machine W P)
      → expects p done ≡ true
      → PassedIs done m
      → continue r (λ _. attempt stage_catches (guarded expects stage p) >>= settle name p) m
        ≡ continue r (λ _. attempt stage_catches (stage p) >>= settle name p) m
  unfolding attempt ◌>>=◌
  attempt-guarded done p (ok _) m e h = ap (behind p) (guarded_lem done p m e h)
  attempt-guarded done p (err x) m e h = refl

  run_stage-guarded :
      (done : List P) (p : P) (m : Machine W P)
      → expects p done ≡ true
      → PassedIs done m
      → run_stage name same (guarded expects stage) p m ≡ run_stage name same stage p m
  unfolding run_stage ◌>>=◌
  run_stage-guarded done p m e h =
      attempt-guarded done p _ _ e ((Keeps-event (IsDone done) (name p) "start" "").at m h)

  abbrev rounds_of : (P → Exec (Machine W P) Done) → List P → Bool → Exec (Machine W P) Bool
  rounds_of f ps go_on = if go_on then run_stages name same f ps else pure false

  module _ (done : List P) (p : P) (ps : List P)
      (ih : (j : ℕ) (m : Machine W P)
        → PassedIs ((done ++ p ∷ []) ++ take j ps) m
        → run_stages name same (guarded expects stage) ps m ≡ run_stages name same stage ps m) where
    after_round-guarded :
        (r : Result Bool) (m : Machine W P)
        → OneMore name same stage done p (r, m)
        → continue r (rounds_of (guarded expects stage) ps) m ≡ continue r (rounds_of stage ps) m
    after_round-guarded (ok true) m (inl h) = ih 0 m (h ∙ sym (append-nil (done ++ p ∷ [])))
    after_round-guarded (ok true) m (inr h) = absurd (h.1 refl)
    after_round-guarded (ok false) m h = refl
    after_round-guarded (err e) m h = refl

  abbrev rest_of :
      (P → Exec (Machine W P) Done) → List P → Result Bool × Machine W P → Result Bool × Machine W P
  rest_of f ps (r, m) = continue r (rounds_of f ps) m

  pub run_stages-guarded :
      (done rest : List P) (j : ℕ) (m : Machine W P)
      → Distinct same done rest
      → Expected expects done rest
      → PassedIs (done ++ take j rest) m
      → run_stages name same (guarded expects stage) rest m ≡ run_stages name same stage rest m
  unfolding run_stages round pure ◌>>=◌
  run_stages-guarded done [] j m d x h = refl
  run_stages-guarded done (p ∷ ps) zero m d x h =
      let h' : PassedIs done m = h ∙ append-nil done in
      let e : has_passed same p m.state.passed ≡ false =
        subst (λ l. has_passed same p l ≡ false) (sym h')
          (has_passed_apart same same_refl p done d.0) in
      rw e (
        ap (rest_of (guarded expects stage) ps) (run_stage-guarded done p m x.0 h')
        ∙ after_round-guarded done p ps
            (λ j m' k. run_stages-guarded (done ++ p ∷ []) ps j m' d.1 x.1 k) _ _
            (run_stage-OneMore name same stage keeps done p m h'))
  run_stages-guarded done (p ∷ ps) (suc j) m d x h =
      let e : has_passed same p m.state.passed ≡ true =
        subst (λ l. has_passed same p l ≡ true) (sym h)
          (has_passed-append same same_refl p done (take j ps)) in
      rw e (
        run_stages-guarded (done ++ p ∷ []) ps j m d.1 x.1
          (h ∙ sym (append_assoc done (p ∷ []) (take j ps))))
