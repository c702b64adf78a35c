-- ===== src/Watchdog/Dispatch.antt =====
-- When scripts/watchdog.py dispatches a recovery.
use k8s_dr.Prelude.{String, true, false, ◌≡◌, ◌⊎◌, inl, inr, refl, Result, Done, ok, err}
use k8s_dr.Prelude.Keeps.{OnOk}
use k8s_dr.Watchdog.Conditions.{Local, Checked, Ensures-conditions}
use k8s_dr.Watchdog.{System, Response, Command, main, after_conditions}

abbrev pub with_post : {W : Type 0} → System W → (String → W → Response × W) → System W
with_post sys post = record sys { post = post }

module _ {W : Type 0} (sys : System W) (post : String → W → Response × W)
    (public_host primary_host : String) where
  abbrev pub AllHold : Type 0
  AllHold = Local sys public_host primary_host × Checked sys public_host primary_host

  after-with_post :
      (r : Result Done) (w : W)
      → OnOk (λ _ _. AllHold) r w
      → (after_conditions (with_post sys post) public_host primary_host (Command.confirm true) r w
          ≡ after_conditions sys public_host primary_host (Command.confirm true) r w)
        ⊎ AllHold
  after-with_post (ok _) w h = inr h
  after-with_post (err e) w h = inl refl

  -- A run of the script returns the same and leaves the same world whatever a POST would do, so that it dispatches
  -- nothing; or it confirms with --start, the switch is on, neither host answered its health check, the public name
  -- had an address and the same as the primary's, no recovery or return was active, no automatic start that failed
  -- blocked another, and every checker failed for the whole window.
  pub main-with_post :
      (command : Command) (w : W)
      → (main (with_post sys post) public_host primary_host command w
          ≡ main sys public_host primary_host command w)
        ⊎ ((command ≡ Command.confirm true) × AllHold)
  unfolding main
  main-with_post Command.local_job w = inl refl
  main-with_post (Command.confirm false) w = inl refl
  main-with_post (Command.confirm true) w =
      elim (after-with_post _ _ ((Ensures-conditions sys public_host primary_host true).at w)) [
        | inl e ↦ inl e
        | inr h ↦ inr (refl, h)
      ]
