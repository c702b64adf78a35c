-- ===== src/Drill/Ensured/Reports.antt =====
-- What the step report of scripts/drill.py ensures where it returns.
use k8s_dr.Prelude.{
  ℕ, ◌≡◌, refl, ap, ◌+◌, ◌≤◌, sub_ℕ, leb_ℤ, leb, String, true, false, not, some, List, [], ◌∷◌, ok,
  Bool-cases, inl, inr, arith,
}
use k8s_dr.Prelude.Keeps.{
  Ensures, Ensures-bind, Ensures-pure, Ensures-lift, bind-Ensures_value, Keeps-Triple, Triple,
  Triple-bind, Triple-raise_if, Triple-both, OnOk-weaken,
}
use k8s_dr.Text.{strip}
use k8s_dr.Calendar.{stamp}
use k8s_dr.Report.{Write, Loss, data_loss}
use k8s_dr.Recovery.State.{State}
use k8s_dr.Recovery.Run.{Stage}
use k8s_dr.Drill.State.{
  Drill, DrillState, DrillSystem, Measured, save, set_state, put_result, put_restored,
}
use k8s_dr.Drill.Measure.{judge, measure, measured, report}
use k8s_dr.Drill.Commands.{check_dataset}
use k8s_dr.Drill.Seen.{Ran, Ensures-run}
use k8s_dr.Drill.Keeps.{Frame, Keeps-check_dataset}

-- A measurement that meets both targets: at most four hours from the first failed probe to the recovery, and at most
-- two hours of lost writes, as the drill report defines the loss.
pub record Meets (r : Measured) : Type 0 where
  pub first_failed : ℕ
  pub ended : ℕ
  pub writes : List Write
  pub head : String
  pub isolated : ℕ
  pub loss : Loss
  pub probe_shown : r.first_failed_probe ≡ stamp first_failed
  pub end_shown : r.recovered ≡ stamp ended
  pub recovery : r.recovery_seconds ≡ sub_ℕ ended first_failed
  pub in_time : ended ≤ first_failed + 14400
  pub lost : data_loss writes head isolated ≡ ok loss
  pub loss_shown : r.data_loss_seconds ≡ loss.loss
  pub little_lost : leb_ℤ loss.loss 7200 ≡ true

-- What a report leaves in drill.json: a measurement that meets the targets, and what the check of the dataset printed.
pub record Reported {W : Type 0} (sys : DrillSystem W) (state : DrillState) : Type 0 where
  pub result : Measured
  pub recorded : state.result ≡ some result
  pub meets : Meets result
  pub printed : String
  pub checked :
      Ran sys ("python3" ∷ "scripts/dataset.py" ∷ "check" ∷ "--host" ∷ sys.public_host ∷ []) printed
  pub restored : state.dataset_restored ≡ some (strip printed)

-- What the check of the dataset printed, where it ended with 0.
abbrev Printed : {W : Type 0} → DrillSystem W → String → Type 0
Printed sys text =
    (out : String) × Ran sys
      ("python3" ∷ "scripts/dataset.py" ∷ "check" ∷ "--host" ∷ sys.public_host ∷ []) out
    × (text ≡ strip out)

sub_ℕ-bound : (ended first n : ℕ) → leb_ℤ (sub_ℕ ended first) n ≡ true → ended ≤ first + n
sub_ℕ-bound ended first n h = elim (Bool-cases (leb first ended)) [
  | inl e ↦ let k = rw e at h in ground arith
  | inr e ↦ ground arith
]

module _ {W : Type 0} ⦃sys : DrillSystem W⦄ where
  Ensures-measure :
      (isolated : ℕ) (known : State Stage)
      → Ensures {S = Drill W} (λ r _. r.met ≡ true → Meets r) (measure isolated known)
  unfolding measure measured
  Ensures-measure isolated known = Ensures-bind _ _ (λ _. Ensures-bind _ _ (λ _.
      Ensures-bind _ _ (λ _. Ensures-bind _ _ (λ events. Ensures-bind _ _ (λ known_end.
        Ensures-bind _ _ (λ found. Ensures-bind _ _ (λ firsts. Ensures-bind _ _ (λ first_failed.
          Ensures-bind _ _ (λ note. Ensures-bind _ _ (λ started. Ensures-bind _ _ (λ log.
            Ensures-bind _ _ (λ writes. Ensures-bind _ _ (λ head.
              bind-Ensures_value _ _ _ (Ensures-lift (data_loss writes head isolated)) (λ loss l.
                Ensures-bind _ _ (λ backup_set. Ensures-bind _ _ (λ set_written.
                  Ensures-pure (λ r. r.met ≡ true → Meets r) _
                    (λ met. record {
                      first_failed = first_failed;
                      ended = found.0;
                      writes = writes;
                      head = head;
                      isolated = isolated;
                      loss = loss;
                      probe_shown = refl;
                      end_shown = refl;
                      recovery = refl;
                      in_time = sub_ℕ-bound found.0 first_failed 14400 (ground arith);
                      lost = l;
                      loss_shown = refl;
                      little_lost = ground arith;
                    })))))))))))))))))

  Recorded-Frame : (r : Measured) → Frame {W = W} (λ m. m.state.result ≡ some r)
  unfolding save
  Recorded-Frame r = record { world = λ m w h. h; saving = record { at = λ m h. h } }

  Ensures-check_dataset : Ensures {S = Drill W} (λ text _. Printed sys text) check_dataset
  unfolding check_dataset
  Ensures-check_dataset =
      bind-Ensures_value (λ out. Ran sys _ out) _ _ (Ensures-run _)
        (λ out r. Ensures-pure _ (strip out) (out, r, refl))

  put_result-recorded :
      (r : Measured)
      → Triple {S = Drill W} (λ m. Unit {0}) (put_result r) (λ _ m. m.state.result ≡ some r)
  unfolding put_result set_state
  put_result-recorded r = record { at = λ m h. refl }

  put_restored-Reported :
      (r : Measured) (text : String)
      → (r.met ≡ true → Meets r)
      → Triple {S = Drill W}
          (λ m. (m.state.result ≡ some r) × (not r.met ≡ false) × Printed sys text)
          (put_restored text)
          (λ _ m. Reported sys m.state)
  unfolding put_restored set_state
  put_restored-Reported r text h = record {
    at = λ m k. record {
      result = r;
      recorded = k.0;
      meets = h (let n = k.1 in ground arith);
      printed = k.2.0;
      checked = k.2.1;
      restored = ap some k.2.2;
    };
  }

  -- The check of the dataset keeps what is recorded.
  check_dataset-keeping :
      (r : Measured) (F : Type 0)
      → Triple {S = Drill W}
          (λ m. (m.state.result ≡ some r) × F)
          check_dataset
          (λ text m. (m.state.result ≡ some r) × F × Printed sys text)
  check_dataset-keeping r F = record {
    at = λ m k.
        OnOk-weaken (λ text m. (m.state.result ≡ some r) × Printed sys text)
          (λ text m. (m.state.result ≡ some r) × F × Printed sys text) _ _
          (λ text m l. (l.0, k.1, l.1))
          ((Triple-both (λ m. m.state.result ≡ some r) check_dataset _ _
              (Keeps-Triple _ _ (Keeps-check_dataset _ (Recorded-Frame r)))
              (record { at = λ m h. Ensures-check_dataset.at m })).at
            m k.0);
  }

  Ensures-judge :
      (r : Measured)
      → (r.met ≡ true → Meets r)
      → Triple {S = Drill W} (λ m. Unit {0}) (judge r) (λ _ m. Reported sys m.state)
  unfolding judge
  Ensures-judge r h =
      Triple-bind _ (λ _ m. m.state.result ≡ some r) _ _ _ (put_result-recorded r)
        (λ _.
          Triple-bind _ (λ _ m. m.state.result ≡ some r) _ _ _
            (Keeps-Triple _ _ (Recorded-Frame r).saving)
            (λ _.
              Triple-bind _ _ _ _ _ (Triple-raise_if (λ m. m.state.result ≡ some r) (not r.met) _)
                (λ _.
                  Triple-bind _ _ _ _ _ (check_dataset-keeping r (not r.met ≡ false))
                    (λ text. put_restored-Reported r text h))))

  pub Ensures-report : Ensures {S = Drill W} (λ _ m. Reported sys m.state) report
  unfolding report
  Ensures-report = Ensures-bind _ _ (λ isolated. Ensures-bind _ _ (λ recovered.
      Ensures-bind _ _ (λ known.
        bind-Ensures_value (λ r. r.met ≡ true → Meets r) _ _ (Ensures-measure isolated known)
          (λ r h. record { at = λ m. (Ensures-judge r h).at m tt }))))
