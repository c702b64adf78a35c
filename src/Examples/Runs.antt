-- ===== src/Examples/Runs.antt =====
-- Runs of the recovery.
use k8s_dr.Prelude.{String, List, [], ◌∷◌, ◌≡◌, refl, none, All, ◌↔◌}
use k8s_dr.Recovery.Run.{run, stages, stage_name, same_stage, stage_of}
use k8s_dr.Recovery.State.{Change}
use k8s_dr.Recovery.Stages.{check_plan}
use k8s_dr.Recovery.Plan.{Accepted, Safe, check_plan_iff}
use k8s_dr.Recovery.InOrder.{InOrder, run-InOrder}
use k8s_dr.Recovery.Runner.{run_stages}
use k8s_dr.Recovery.Guard.{guarded}
use k8s_dr.Recovery.Sequence.{is_next, run_stages-is_next}
use k8s_dr.Return.Stages.{check_destroy_plan}
use k8s_dr.Return.Run.{run_return}
use k8s_dr.Return.Plan.{OnlyDeletes, check_destroy_plan_iff}
use k8s_dr.Return.InOrder.{ReturnInOrder, run_return-InOrder}
use k8s_dr.Examples.World.{small_system, resumed, returned, recovered}

run-InOrder_example : InOrder ⦃sys = small_system⦄ (run ⦃sys = small_system⦄ none resumed)
run-InOrder_example = run-InOrder ⦃sys = small_system⦄ 2 resumed refl

abbrev change : String → List String → Change
change kind actions = record { address = "a"; kind = kind; actions = actions }

abbrev plan : List Change
plan =
    change "google_compute_instance" ("create" ∷ [])
    ∷ change "google_service_account" ("no-op" ∷ [])
    ∷ []

check_plan_iff_example : Accepted (check_plan plan) ↔ All Safe plan
check_plan_iff_example = check_plan_iff plan

run_stages-is_next_example :
    run_stages ⦃sys = small_system⦄ stage_name same_stage
      (guarded is_next (stage_of ⦃sys = small_system⦄))
      stages
      resumed
    ≡ run_stages ⦃sys = small_system⦄ stage_name same_stage
        (stage_of ⦃sys = small_system⦄)
        stages
        resumed
run_stages-is_next_example = run_stages-is_next ⦃sys = small_system⦄ 2 resumed refl

abbrev destroy_plan : List Change
destroy_plan =
    change "google_compute_instance" ("delete" ∷ []) ∷ change "google_project" ("no-op" ∷ []) ∷ []

check_destroy_plan_iff_example :
    Accepted (check_destroy_plan destroy_plan) ↔ All OnlyDeletes destroy_plan
check_destroy_plan_iff_example = check_destroy_plan_iff destroy_plan

run_return-InOrder_example :
    ReturnInOrder ⦃sys = small_system⦄ recovered
      (run_return ⦃sys = small_system⦄ recovered returned)
run_return-InOrder_example = run_return-InOrder ⦃sys = small_system⦄ recovered 1 returned refl
