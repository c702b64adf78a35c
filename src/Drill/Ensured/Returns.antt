-- ===== src/Drill/Ensured/Returns.antt =====
-- What the step return of scripts/drill.py ensures where it returns.
use k8s_dr.Prelude.{
  ◌≡◌, refl, sym, ap, subst, ◌∙◌, String, Bool, true, false, none, List, [], ◌∷◌, ok, Exec, ◌++◌,
  ◌-◌, inl, inr, ◌⊎◌,
}
use k8s_dr.Prelude.Keeps.{
  OnOk-weaken, Ensures, Ensures-pure, Ensures-lift, bind-Ensures_value, OnOk-of, Ensures-bind,
  ensure_rules,
}
use k8s_dr.Text.{◌<>◌, strip, sorted_texts}
use k8s_dr.Recovery.Stages.{values_of}
use k8s_dr.Drill.State.{Drill, DrillState, DrillSystem, in_world}
use k8s_dr.Drill.Waits.{return_run, primary_names, primary_vms, restart_primary}
use k8s_dr.Drill.Returning.{dispatch_return, end_on_primary, return_step}
use k8s_dr.Drill.Commands.{now, output, output_map}
use k8s_dr.Drill.Ensured.{HasRun, Ensures-wait_rounds}
use k8s_dr.Drill.Seen.{Ran, Ensures-run}

-- The machines of the primary were started: the command ended with 0, for the names, the zone and the project that
-- Terraform printed.
pub record StartedMachines {W : Type 0} (sys : DrillSystem W) : Type 0 where
  pub listing : String
  pub zone : String
  pub project : String
  pub names : List (String × String)
  pub stdout : String
  pub listed :
      Ran sys
        ("terraform" ∷ "-chdir=infra/primary" ∷ "output" ∷ "-json" ∷ "instance_names" ∷ [])
        listing
  pub decoded : sys.commands.decode_map listing ≡ ok names
  pub in_zone :
      Ran sys ("terraform" ∷ "-chdir=infra/primary" ∷ "output" ∷ "-raw" ∷ "zone" ∷ []) zone
  pub in_project :
      Ran sys ("terraform" ∷ "-chdir=infra/primary" ∷ "output" ∷ "-raw" ∷ "project_id" ∷ []) project
  pub started :
      Ran sys
        ("gcloud" ∷ "compute" ∷ "instances" ∷ "start" ∷ sorted_texts (values_of names)
          ++ "--zone" ∷ strip zone ∷ "--project" ∷ strip project ∷ [])
        stdout

-- The end of a return: the machines were started, or a run of Return that was created since a minute before a
-- time that the clock showed has succeeded.
abbrev pub Returned : {W : Type 0} → DrillSystem W → DrillState → Type 0
Returned {W = W} sys state =
    StartedMachines sys
    ⊎ ((w : W) × HasRun sys "return.yml" ((sys.commands.now w).0 - 60) state.return_run)

-- The names of the machines, as Terraform printed them.
abbrev pub Listed : {W : Type 0} → DrillSystem W → String → List (String × String) → Type 0
Listed sys listing names =
    Ran sys
      ("terraform" ∷ ("-chdir=infra/" <> "primary") ∷ "output" ∷ "-json" ∷ "instance_names" ∷ [])
      listing
    × (sys.commands.decode_map listing ≡ ok names)

module _ {W : Type 0} ⦃sys : DrillSystem W⦄ where
  Ensures-weaken :
      {A : Type 0} {P Q : A → Drill W → Type 0} {m : Exec (Drill W) A}
      → ((a : A) (d : Drill W) → P a d → Q a d)
      → Ensures P m
      → Ensures Q m
  Ensures-weaken k e = record { at = λ s. OnOk-weaken _ _ _ _ k (e.at s) }

  Ensures-always : {A F : Type 0} (m : Exec (Drill W) A) → F → Ensures (λ _ _. F) m
  Ensures-always m f = record { at = λ s. OnOk-of (λ _. _) (m s).0 (m s).1 f }

  Ensures-now : Ensures {S = Drill W} (λ t _. (w : W) × ((sys.commands.now w).0 ≡ t)) now
  unfolding in_world
  Ensures-now = record { at = λ m. (m.world, refl) }

  Ensures-output_map :
      Ensures {S = Drill W}
        (λ names _. (listing : String) × Listed sys listing names)
        (output_map "primary" "instance_names")
  unfolding output_map
  Ensures-output_map =
      bind-Ensures_value (λ listing. Ran sys _ listing) _ _ (Ensures-run _)
        (λ listing r.
          Ensures-weaken {P = λ names _. sys.commands.decode_map listing ≡ ok names}
            (λ _ _ d. (listing, (r, d))) (Ensures-lift _))

  Ensures-primary_names :
      Ensures {S = Drill W}
        (λ found _.
          (listing : String) × (names : List (String × String)) × Listed sys listing names
          × (found ≡ sorted_texts (values_of names)))
        primary_names
  unfolding primary_names
  Ensures-primary_names =
      bind-Ensures_value (λ names. (listing : String) × Listed sys listing names) _ _
        Ensures-output_map
        (λ map h. Ensures-pure _ (sorted_texts (values_of map)) (h.0, map, h.1, refl))

  Ensures-output :
      (root name : String)
      → Ensures {S = Drill W}
          (λ value _.
            (text : String) × Ran sys
              ("terraform" ∷ ("-chdir=infra/" <> root) ∷ "output" ∷ "-raw" ∷ name ∷ [])
              text
            × (value ≡ strip text))
          (output root name)
  unfolding output
  Ensures-output root name =
      bind-Ensures_value _ _ _ (Ensures-run _)
        (λ text r. Ensures-pure _ (strip text) (text, r, refl))

  started_machines :
      (listing zone_text project_text zone project stdout : String) (found : List String)
      (names : List (String × String))
      → Listed sys listing names
      → found ≡ sorted_texts (values_of names)
      → Ran sys
          ("terraform" ∷ ("-chdir=infra/" <> "primary") ∷ "output" ∷ "-raw" ∷ "zone" ∷ [])
          zone_text
      → zone ≡ strip zone_text
      → Ran sys
          ("terraform" ∷ ("-chdir=infra/" <> "primary") ∷ "output" ∷ "-raw" ∷ "project_id" ∷ [])
          project_text
      → project ≡ strip project_text
      → Ran sys
          ("gcloud" ∷ "compute" ∷ "instances" ∷ "start" ∷ found
            ++ "--zone" ∷ zone ∷ "--project" ∷ project ∷ [])
          stdout
      → StartedMachines sys
  unfolding ◌<>◌
  started_machines listing zone_text project_text zone project stdout found names l en rz ez rp ep
        r =
      record {
        listing = listing;
        zone = zone_text;
        project = project_text;
        names = names;
        stdout = stdout;
        listed = l.0;
        decoded = l.1;
        in_zone = rz;
        in_project = rp;
        started =
            subst (λ argv. Ran sys argv stdout)
              (ap
                  (λ ns.
                    "gcloud" ∷ "compute" ∷ "instances" ∷ "start" ∷ ns
                    ++ "--zone" ∷ zone ∷ "--project" ∷ project ∷ [])
                  en
                ∙ ap
                    (λ z.
                      "gcloud" ∷ "compute" ∷ "instances" ∷ "start" ∷ sorted_texts (values_of names)
                      ++ "--zone" ∷ z ∷ "--project" ∷ project ∷ [])
                    ez
                ∙ ap
                    (λ p.
                      "gcloud" ∷ "compute" ∷ "instances" ∷ "start" ∷ sorted_texts (values_of names)
                      ++ "--zone" ∷ strip zone_text ∷ "--project" ∷ p ∷ [])
                    ep)
              r;
      }

  Ensures-start : Ensures {S = Drill W} (λ _ _. StartedMachines sys) (primary_vms false)
  unfolding primary_vms
  Ensures-start = bind-Ensures_value _ _ _ Ensures-primary_names (λ names n.
      bind-Ensures_value _ _ _ (Ensures-output "primary" "zone") (λ zone z.
        bind-Ensures_value _ _ _ (Ensures-output "primary" "project_id") (λ project p.
          Ensures-bind _ _ (λ _. bind-Ensures_value _ _ _ (Ensures-run _) (λ out r.
            Ensures-pure (λ _. StartedMachines sys) tt
              (started_machines n.0 z.0 p.0 zone project out names n.1 n.2 n.3 z.1 z.2 p.1 p.2
                r))))))

  Ensures-restart_primary : Ensures {S = Drill W} (λ _ m. StartedMachines sys) restart_primary
  unfolding restart_primary
  Ensures-restart_primary =
      bind-Ensures_value _ _ _ Ensures-start
        (λ _ h. Ensures-bind _ _ (λ t. Ensures-bind _ _ (λ _. Ensures-always _ h)))

  Ensures-dispatch_return :
      Ensures {S = Drill W}
        (λ _ m. (w : W) × HasRun sys "return.yml" ((sys.commands.now w).0 - 60) m.state.return_run)
        dispatch_return
  unfolding dispatch_return
  Ensures-dispatch_return = bind-Ensures_value _ _ _ Ensures-now (λ t h. Ensures-bind _ _ (λ _.
      Ensures-weaken
        (λ _ m k.
          (h.0, subst (λ n. HasRun sys "return.yml" (n - 60) m.state.return_run) (sym h.1) k))
        (Ensures-wait_rounds "return.yml" (t - 60) _ _ return_run none)))

  Ensures-end_on_primary :
      (found : Bool) → Ensures {S = Drill W} (λ _ m. Returned sys m.state) (end_on_primary found)
  unfolding end_on_primary
  Ensures-end_on_primary true = Ensures-weaken (λ _ _. inr) Ensures-dispatch_return
  Ensures-end_on_primary false = Ensures-weaken (λ _ _. inl) Ensures-restart_primary

  pub Ensures-return_step : Ensures {S = Drill W} (λ _ m. Returned sys m.state) return_step
  unfolding return_step
  Ensures-return_step = search (ensure_rules, Ensures-end_on_primary)
