-- ===== src/Recovery/Sequence.antt =====
-- When the stages of scripts/recover.py run: a guard that demands what passed before changes no run.
use k8s_dr.Prelude.{ℕ, Bool, true, false, ◌&&◌, List, [], ◌∷◌, take, ◌≡◌, arith}
use k8s_dr.Recovery.State.{Machine, System}
use k8s_dr.Recovery.Runner.{run_stages}
use k8s_dr.Recovery.StageKeeps.{Keeps-stage_of}
use k8s_dr.Recovery.Order.{IsDone}
use k8s_dr.Recovery.Run.{Stage, stages, stage_name, index, same_stage, stage_of}
use k8s_dr.Recovery.InOrder.{stages-Distinct, same_stage_refl}
use k8s_dr.Recovery.Guard.{guarded, Expected, run_stages-guarded}

abbrev pub same_stages : List Stage → List Stage → Bool
same_stages [] [] = true
same_stages (p ∷ ps) (q ∷ qs) = same_stage p q && same_stages ps qs
same_stages _ _ = false

-- What passed are exactly the stages in front of `p`.
abbrev pub is_next : Stage → List Stage → Bool
is_next p passed = same_stages passed (take (index p) stages)

stages-Expected : Expected is_next [] stages
stages-Expected = ground arith

-- From a state in which the first j stages have passed, the loop over the stages does the same, in
-- its result and in all that it leaves behind, if each stage first raises an error that no handler
-- catches unless the stages that passed are exactly those in front of it. So no stage runs before
-- another one in front of it has passed: the public name moves only behind the verification and the
-- fence, and the backups resume only behind them all.
pub run_stages-is_next :
    {W : Type 0} ⦃sys : System W⦄ (j : ℕ) (m : Machine W Stage)
    → m.state.passed ≡ take j stages
    → run_stages stage_name same_stage (guarded is_next stage_of) stages m
      ≡ run_stages stage_name same_stage stage_of stages m
run_stages-is_next j m h =
    run_stages-guarded stage_name same_stage same_stage_refl stage_of is_next
      (λ done p. Keeps-stage_of (IsDone done) p) [] stages j m stages-Distinct stages-Expected h
