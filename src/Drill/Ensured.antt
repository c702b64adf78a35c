-- ===== src/Drill/Ensured.antt =====
-- What the step wait of scripts/drill.py ensures where it returns: a run of Recover that succeeded.
pub mod Returns
pub mod Reports
use k8s_dr.Prelude.{
  ℕ, zero, suc, ◌≡◌, refl, sym, ap, subst, ◌∙◌, String, Bool, true, false, not, Option, none, some,
  List, [], ◌∷◌, Error, drill_failed, value_error, no_start, stage_failed, failed, key_error,
  os_error, runtime_error, out_of_fuel, ok, Done, Exec, ask, catching, All, ◌++◌, ◌-◌, raise_if,
  ◌>>=◌, Bool-cases, inl, inr, ◌⊎◌,
}
use k8s_dr.Prelude.Keeps.{
  Keeps, Keeps-Triple, Triple, Triple-bind, Triple-lift, Triple-both, OnOk-weaken, Ensures,
  Ensures-pure, Ensures-lift, Ensures-catching, bind-Ensures_value, OnOk, OnOk-of, Ensures-raise,
  Ensures-bind, ensure_rules,
}
use k8s_dr.Text.{◌=ᵗ◌, ◌<>◌, strip, sorted_texts}
use k8s_dr.Recovery.Stages.{values_of}
use k8s_dr.Watchdog.{Run, is_text}
use k8s_dr.Drill.State.{
  Drill, DrillState, DrillSystem, RunNote, in_world, save, set_state, put_recovery_run,
  put_return_run, put_restarted, put_restored,
}
use k8s_dr.Drill.Waits.{
  Key, recovery_run, return_run, note_of, isolated_text, primary_names, primary_vms, keep_note,
  not_yet, with_found, wait_rounds, restart_primary, recover_primary, on_failed_wait,
  wait_for_recovery, wait_step,
}
use k8s_dr.Drill.Returning.{dispatch_return, end_on_primary, return_step}
use k8s_dr.Drill.Commands.{parse, now, output, output_map}
use k8s_dr.Drill.Seen.{Ran, Seen, Ensures-run, Ensures-runs_found}
use k8s_dr.Drill.Keeps.{Frame}
use k8s_dr.Drill.StepKeeps.{Keeps-wait_step}

abbrev pub noted : Key → DrillState → Option RunNote
noted recovery_run s = s.recovery_run
noted return_run s = s.return_run

-- A note of a run that the API listed as completed with success.
pub record SeenSuccess {W : Type 0} (sys : DrillSystem W) (workflow : String) (since : ℕ)
    (note : RunNote) : Type 0 where
  pub run : Run
  pub seen : Seen sys workflow since run
  pub kept : note ≡ note_of run
  pub completed : (run.status =ᵗ "completed") ≡ true
  pub success : is_text run.conclusion "success" ≡ true

abbrev pub HasRun : {W : Type 0} → DrillSystem W → String → ℕ → Option RunNote → Type 0
HasRun sys workflow since o = (n : RunNote) × (o ≡ some n) × SeenSuccess sys workflow since n

-- The recovery of this drill: its run was created at or after the isolation.
abbrev pub Recovered : {W : Type 0} → DrillSystem W → DrillState → Type 0
Recovered sys state =
    (text : String) × (isolated : ℕ) × (state.isolated_at ≡ some text)
    × (parse text ≡ ok isolated)
    × HasRun sys "recover.yml" isolated state.recovery_run

module _ {W : Type 0} ⦃sys : DrillSystem W⦄ where
  abbrev pub Succeeded : Key → String → ℕ → Drill W → Type 0
  Succeeded key workflow since m = HasRun sys workflow since (noted key m.state)

  Ensures-not_yet :
      (Q : Done → Drill W → Type 0) (found : Bool) (deadline : ℕ) (start : Option ℕ)
      (rest : Exec (Drill W) Done)
      → Ensures Q rest
      → Ensures Q (not_yet found deadline start rest)
  unfolding not_yet
  Ensures-not_yet Q found deadline start rest k = search ensure_rules depth 8

  module _ (workflow : String) (since : ℕ) where
    -- A completed run that is kept.
    kept-Succeeded :
        (key : Key) (first : Run) (e : Error)
        → Seen sys workflow since first
        → (first.status =ᵗ "completed") ≡ true
        → Ensures {S = Drill W}
            (λ _. Succeeded key workflow since)
            (keep_note key (note_of first) >>= λ _.
              save >>= λ _. raise_if (not (is_text first.conclusion "success")) e)
    unfolding keep_note put_recovery_run put_return_run set_state save raise_if ◌>>=◌
    kept-Succeeded recovery_run first e seen c = record {
      at = λ m. elim (Bool-cases (is_text first.conclusion "success")) [
        | inl s ↦
            rw s (
              _,
              refl,
              record { run = first; seen = seen; kept = refl; completed = c; success = s },
            )
        | inr s ↦ rw s tt
      ];
    }
    kept-Succeeded return_run first e seen c = record {
      at = λ m. elim (Bool-cases (is_text first.conclusion "success")) [
        | inl s ↦
            rw s (
              _,
              refl,
              record { run = first; seen = seen; kept = refl; completed = c; success = s },
            )
        | inr s ↦ rw s tt
      ];
    }

    Ensures-with_found :
        (key : Key) (deadline : ℕ) (start : Option ℕ) (rest : Exec (Drill W) Done) (runs : List Run)
        → All (Seen sys workflow since) runs
        → Ensures (λ _. Succeeded key workflow since) rest
        → Ensures (λ _. Succeeded key workflow since) (with_found key deadline start rest runs)
    unfolding with_found
    Ensures-with_found key deadline start rest [] h k =
        Ensures-not_yet _ false deadline start rest k
    Ensures-with_found key deadline start rest (first ∷ later) h k =
        elim (Bool-cases (first.status =ᵗ "completed")) [
          | inl e ↦ rw e (kept-Succeeded key first _ h.0 e)
          | inr e ↦ rw e (
              Ensures-bind _ _
                (λ _. Ensures-bind _ _ (λ _. Ensures-not_yet _ true deadline start rest k)))
        ]

    pub Ensures-wait_rounds :
        (fuel : ℕ) (deadline : ℕ) (key : Key) (start : Option ℕ)
        → Ensures {S = Drill W}
            (λ _. Succeeded key workflow since)
            (wait_rounds fuel workflow since deadline key start)
    unfolding wait_rounds
    Ensures-wait_rounds zero deadline key start = Ensures-raise _
    Ensures-wait_rounds (suc fuel) deadline key start =
        bind-Ensures_value _ _ _ (Ensures-runs_found workflow since) (λ found h.
          Ensures-with_found key deadline start _ found h
            (Ensures-wait_rounds fuel deadline key start))

  Ensures-recover :
      (Q : Done → Drill W → Type 0) (reason : String) (recorded : Bool)
      → Ensures Q (recover_primary reason recorded)
  unfolding recover_primary
  Ensures-recover Q reason true = Ensures-raise _
  Ensures-recover Q reason false = Ensures-bind _ _ (λ _. Ensures-raise _)

  Ensures-on_failed_wait : (Q : Done → Drill W → Type 0) (e : Error) → Ensures Q (on_failed_wait e)
  unfolding on_failed_wait
  Ensures-on_failed_wait Q (drill_failed reason) = Ensures-bind _ _ (Ensures-recover Q reason)
  Ensures-on_failed_wait Q (no_start m) = Ensures-raise _
  Ensures-on_failed_wait Q (stage_failed m) = Ensures-raise _
  Ensures-on_failed_wait Q (failed m) = Ensures-raise _
  Ensures-on_failed_wait Q (value_error m) = Ensures-raise _
  Ensures-on_failed_wait Q (key_error m) = Ensures-raise _
  Ensures-on_failed_wait Q (os_error m) = Ensures-raise _
  Ensures-on_failed_wait Q (runtime_error m) = Ensures-raise _
  Ensures-on_failed_wait Q out_of_fuel = Ensures-raise _

  Isolated-Frame : (o : Option String) → Frame {W = W} (λ m. m.state.isolated_at ≡ o)
  unfolding save
  Isolated-Frame o = record { world = λ m w h. h; saving = record { at = λ m h. h } }

  Keeps-note :
      (o : Option String) (n : RunNote)
      → Keeps {S = Drill W} (λ m. m.state.isolated_at ≡ o) (keep_note recovery_run n)
  unfolding keep_note put_recovery_run set_state
  Keeps-note o n = record { at = λ m h. h }

  Keeps-restart :
      (o : Option String) (t : String)
      → Keeps {S = Drill W} (λ m. m.state.isolated_at ≡ o) (put_restarted t)
  unfolding put_restarted set_state
  Keeps-restart o t = record { at = λ m h. h }

  Ensures-recovery :
      (isolated : ℕ)
      → Ensures {S = Drill W}
          (λ _. Succeeded recovery_run "recover.yml" isolated)
          (catching (wait_for_recovery isolated) on_failed_wait)
  unfolding wait_for_recovery
  Ensures-recovery isolated =
      Ensures-catching _ _ (Ensures-wait_rounds "recover.yml" isolated _ _ recovery_run _)
        (Ensures-on_failed_wait _)

  -- What `self.state["isolated_at"]` is where it is read.
  isolated_text-known :
      (known o : Option String) (m : Drill W)
      → o ≡ known
      → OnOk (λ text _. known ≡ some text) (isolated_text o) m
  isolated_text-known known none m e = tt
  isolated_text-known known (some t) m e = sym e

  abbrev Read : Option String → String → Drill W → Type 0
  Read o text m = o ≡ some text

  abbrev WaitedFrom : Option String → Done → Drill W → Type 0
  WaitedFrom o _ m =
      (text : String) × (isolated : ℕ) × (o ≡ some text)
      × (parse text ≡ ok isolated)
      × HasRun sys "recover.yml" isolated m.state.recovery_run

  wait_from :
      (o : Option String)
      → Triple {S = Drill W} (λ m. m.state.isolated_at ≡ o) (wait_step {W = W}) (WaitedFrom o)
  unfolding wait_step ask
  wait_from o =
      Triple-bind _ (Read o) _ _ _
        (record { at = λ m h. isolated_text-known o m.state.isolated_at m h })
        (λ text. Triple-bind _ _ _ _ _ (Triple-lift (Read o text) (parse text)) (λ isolated.
          record {
            at = λ m h.
                OnOk-weaken (λ _. Succeeded recovery_run "recover.yml" isolated) (WaitedFrom o) _ _
                  (λ _ m' k. (text, isolated, h.0, h.1, k)) ((Ensures-recovery isolated).at m);
          }))

  pub Ensures-wait_step : Ensures {S = Drill W} (λ _ m. Recovered sys m.state) wait_step
  Ensures-wait_step = record {
    at = λ m.
        let o = m.state.isolated_at in
        let kept = Keeps-Triple _ (wait_step {W = W}) (
          Keeps-wait_step (λ m. m.state.isolated_at ≡ o) (Isolated-Frame o) (Keeps-restart o)
            (Keeps-note o)) in
        OnOk-weaken (λ a d. (d.state.isolated_at ≡ o) × WaitedFrom o a d)
          (λ _ d. Recovered sys d.state) _ _ (λ _ m' k. (k.1.0, k.1.1, k.0 ∙ k.1.2, k.1.3, k.1.4))
          ((Triple-both _ _ _ _ kept (wait_from o)).at m refl);
  }
