-- ===== src/Tunnels/Reaping.antt =====
-- What `_stop_tunnels` of scripts/run_with_iap.py leaves of the processes that it is given.
pub mod Started
use k8s_dr.Prelude.{
  ℕ, ◌≡◌, ◌≢◌, refl, sym, subst, String, Bool, true, none, some, List, [], ◌∷◌, Result, ok, err,
  All, Bool-cases, Option-cases, inl, inr, Exec, continue, raise_if, ◌>>=◌, Done,
}
use k8s_dr.Tunnels.Session.{TunnelSystem, ask_to_stop, stop_one, stop_active, stop_tunnels}

-- What the script relies on, for a predicate that says of a process number that no tunnel runs under it: only
-- the start of a process makes one run, under the number that it returns; and a process whose end was seen, or
-- waited for, has ended.
pub record ProcessLaws {W : Type 0} (sys : TunnelSystem W) (exited : ℕ → W → Bool) : Type 0 where
  pub popen_keeps :
      (p : ℕ) (argv : List String) (w : W)
      → (sys.popen argv w).0 ≢ ok p
      → exited p w ≡ true
      → exited p (sys.popen argv w).1 ≡ true
  pub bind_keeps : (p port : ℕ) (w : W) → exited p w ≡ true → exited p (sys.bind port w).1 ≡ true
  pub monotonic_keeps : (p : ℕ) (w : W) → exited p w ≡ true → exited p (sys.monotonic w).1 ≡ true
  pub sleep_keeps : (p n : ℕ) (w : W) → exited p w ≡ true → exited p (sys.sleep n w) ≡ true
  pub read_error_keeps :
      (p q : ℕ) (w : W) → exited p w ≡ true → exited p (sys.read_error q w).1 ≡ true
  pub connect_keeps :
      (p port : ℕ) (w : W) → exited p w ≡ true → exited p (sys.connect port w).1 ≡ true
  pub keyscan_keeps :
      (p port : ℕ) (w : W) → exited p w ≡ true → exited p (sys.keyscan port w).1 ≡ true
  pub write_keys_keeps :
      (p : ℕ) (keys : String) (w : W)
      → exited p w ≡ true
      → exited p (sys.write_keys keys w).1 ≡ true
  pub run_command_keeps :
      (p : ℕ) (argv : List String) (ssh : String) (w : W)
      → exited p w ≡ true
      → exited p (sys.run_command argv ssh w).1 ≡ true
  pub terminate_keeps : (p q : ℕ) (w : W) → exited p w ≡ true → exited p (sys.terminate q w) ≡ true
  pub kill_keeps : (p q : ℕ) (w : W) → exited p w ≡ true → exited p (sys.kill q w) ≡ true
  pub poll_keeps : (p q : ℕ) (w : W) → exited p w ≡ true → exited p (sys.poll q w).1 ≡ true
  pub wait_briefly_keeps :
      (p q : ℕ) (w : W) → exited p w ≡ true → exited p (sys.wait_briefly q w).1 ≡ true
  pub wait_keeps : (p q : ℕ) (w : W) → exited p w ≡ true → exited p (sys.wait q w) ≡ true
  pub poll_sees :
      (p code : ℕ) (w : W) → (sys.poll p w).0 ≡ some code → exited p (sys.poll p w).1 ≡ true
  pub wait_briefly_sees :
      (p : ℕ) (w : W) → (sys.wait_briefly p w).0 ≡ true → exited p (sys.wait_briefly p w).1 ≡ true
  pub wait_ends : (p : ℕ) (w : W) → exited p (sys.wait p w) ≡ true

module _ {W : Type 0} ⦃sys : TunnelSystem W⦄ (exited : ℕ → W → Bool)
    (laws : ProcessLaws sys exited) where
  stop_one-keeps : (p q : ℕ) (w : W) → exited p w ≡ true → exited p (stop_one q w) ≡ true
  unfolding stop_one
  stop_one-keeps p q w h = elim (Bool-cases (sys.wait_briefly q w).0) [
    | inl e ↦ rw e (laws.wait_briefly_keeps p q w h)
    | inr e ↦ rw e (laws.wait_keeps p q _ (laws.kill_keeps p q _ (laws.wait_briefly_keeps p q w h)))
  ]

  stop_one-ends : (p : ℕ) (w : W) → exited p (stop_one p w) ≡ true
  unfolding stop_one
  stop_one-ends p w = elim (Bool-cases (sys.wait_briefly p w).0) [
    | inl e ↦ rw e (laws.wait_briefly_sees p w e)
    | inr e ↦ rw e (laws.wait_ends p _)
  ]

  stop_active-keeps :
      (p : ℕ) (pids : List ℕ) (w : W) → exited p w ≡ true → exited p (stop_active pids w) ≡ true
  unfolding stop_active
  stop_active-keeps p [] w h = h
  stop_active-keeps p (q ∷ pids) w h = stop_active-keeps p pids _ (stop_one-keeps p q w h)

  ask_to_stop-keeps :
      (p : ℕ) (pids : List ℕ) (w : W) → exited p w ≡ true → exited p (ask_to_stop pids w).1 ≡ true
  unfolding ask_to_stop
  ask_to_stop-keeps p [] w h = h
  ask_to_stop-keeps p (q ∷ pids) w h = elim (Option-cases (sys.poll q w).0) [
    | inl e ↦
        rw (e, ask_to_stop)
          (ask_to_stop-keeps p pids _ (laws.terminate_keeps p q _ (laws.poll_keeps p q w h)))
    | inr (code, e) ↦ rw (e, ask_to_stop) (ask_to_stop-keeps p pids _ (laws.poll_keeps p q w h))
  ]

  -- A process that still runs is asked to stop, and one that has ended is left out.
  ask_to_stop_running :
      (p : ℕ) (pids : List ℕ) (w : W)
      → (sys.poll p w).0 ≡ none
      → ask_to_stop (p ∷ pids) w ≡ (
        p ∷ (ask_to_stop pids (sys.terminate p (sys.poll p w).1)).0,
        (ask_to_stop pids (sys.terminate p (sys.poll p w).1)).1,
      )
  unfolding ask_to_stop
  ask_to_stop_running p pids w e = rw (e, ask_to_stop) refl

  ask_to_stop_ended :
      (p code : ℕ) (pids : List ℕ) (w : W)
      → (sys.poll p w).0 ≡ some code
      → ask_to_stop (p ∷ pids) w ≡ ask_to_stop pids (sys.poll p w).1
  unfolding ask_to_stop
  ask_to_stop_ended p code pids w e = rw (e, ask_to_stop) refl

  -- Both loops over the processes, with a step between them.
  abbrev Ended : List ℕ → (W → W) → List ℕ × W → Type 0
  Ended pids g asked = All (λ p. exited p (stop_active asked.0 (g asked.1)) ≡ true) pids

  -- A step between the loops leaves what has ended.
  loops-end :
      (pids : List ℕ) (w : W) (g : W → W)
      → ((p : ℕ) (w : W) → exited p w ≡ true → exited p (g w) ≡ true)
      → Ended pids g (ask_to_stop pids w)
  unfolding stop_active
  loops-end [] w g k = tt
  loops-end (p ∷ pids) w g k = elim (Option-cases (sys.poll p w).0) [
    | inl e ↦ subst (Ended (p ∷ pids) g) (sym (ask_to_stop_running p pids w e)) (
      stop_active-keeps p (ask_to_stop pids (sys.terminate p (sys.poll p w).1)).0
          (stop_one p (g (ask_to_stop pids (sys.terminate p (sys.poll p w).1)).1))
          (stop_one-ends p _),
      loops-end pids _ (λ w'. stop_one p (g w')) (λ q w' h. stop_one-keeps q p _ (k q w' h)),
    )
    | inr (code, e) ↦ subst (Ended (p ∷ pids) g) (sym (ask_to_stop_ended p code pids w e)) (
      stop_active-keeps p (ask_to_stop pids (sys.poll p w).1).0
          (g (ask_to_stop pids (sys.poll p w).1).1)
          (k p _ (ask_to_stop-keeps p pids _ (laws.poll_sees p code w e))),
      loops-end pids _ g k,
    )
  ]

  pub stop_tunnels-ends :
      (pids : List ℕ) (w : W) → All (λ p. exited p (stop_tunnels pids w) ≡ true) pids
  unfolding stop_tunnels
  stop_tunnels-ends pids w = loops-end pids w (λ w. w) (λ p w h. h)

  pub stop_tunnels-keeps :
      (p : ℕ) (pids : List ℕ) (w : W) → exited p w ≡ true → exited p (stop_tunnels pids w) ≡ true
  unfolding stop_tunnels
  stop_tunnels-keeps p pids w h =
      stop_active-keeps p (ask_to_stop pids w).0 _ (ask_to_stop-keeps p pids w h)
