-- ===== src/Tunnels/Waiting.antt =====
-- The waits of scripts/run_with_iap.py end: their fuel is enough for every clock that moves with the sleeps.
use k8s_dr.Prelude.{
  ℕ, zero, suc, ◌+◌, ◌*◌, ◌≤◌, ◌<◌, ◌≡◌, ◌≢◌, Option, none, some, out_of_fuel, Done, err, Exec,
  pure, raise, ◌>>=◌, ltb, arith, Bool-cases, inl, inr,
}
use k8s_dr.Tunnels.Session.{
  TunnelSystem, Session, act, exited_tunnel, try_connect, poll_round, tunnel_rounds,
  wait_for_tunnel,
}

module _ {W : Type 0} ⦃sys : TunnelSystem W⦄ (time : W → ℕ)
    (clock_is : (w : W) → sys.monotonic w ≡ (time w, w))
    (sleep_moves : (n : ℕ) (w : W) → time w + n ≤ time (sys.sleep n w))
    (poll_takes_time : (p : ℕ) (w : W) → time w ≤ time (sys.poll p w).1)
    (connect_takes_time : (p : ℕ) (w : W) → time w ≤ time (sys.connect p w).1) where
  -- `rest` ends from every later time that is 100 ms on.
  abbrev EndsLater : Exec (Session W) Done → Session W → Type 0
  EndsLater rest s =
      (s' : Session W) → time s.world + 100 ≤ time s'.world → (rest s').0 ≢ err out_of_fuel

  try_connect-ends :
      (port : ℕ) (rest : Exec (Session W) Done) (s : Session W)
      → EndsLater rest s
      → (try_connect port rest s).0 ≢ err out_of_fuel
  unfolding try_connect act pure ◌>>=◌
  try_connect-ends port rest s h = elim (Bool-cases (sys.connect port s.world).0) [
    | inl e ↦ rw e (λ z. ground arith)
    | inr e ↦
        let c = connect_takes_time port s.world in
        let m = sleep_moves 100 (sys.connect port s.world).1 in rw e (h _ (omega arith))
  ]

  poll_round-ends :
      (pid port : ℕ) (rest : Exec (Session W) Done) (code : Option ℕ) (s : Session W)
      → EndsLater rest s
      → (poll_round pid port rest code s).0 ≢ err out_of_fuel
  unfolding poll_round exited_tunnel act raise ◌>>=◌
  poll_round-ends pid port rest (some code) s h = λ z. ground arith
  poll_round-ends pid port rest none s h = try_connect-ends port rest s h

  -- The world behind the poll of a round.
  abbrev polled : ℕ → Session W → Session W
  polled pid s = record s { world = (sys.poll pid s.world).1 }

  tunnel_round-ends :
      (k pid port deadline : ℕ) (s : Session W)
      → (time s.world < deadline → EndsLater (tunnel_rounds k pid port deadline) (polled pid s))
      → (tunnel_rounds (suc k) pid port deadline s).0 ≢ err out_of_fuel
  unfolding tunnel_rounds act raise ◌>>=◌
  tunnel_round-ends k pid port deadline s h =
      rw (clock_is s.world) (elim (Bool-cases (ltb (time s.world) deadline)) [
        | inr late ↦ rw late (λ z. ground arith)
        | inl early ↦ rw early (
            poll_round-ends pid port (tunnel_rounds k pid port deadline) (sys.poll pid s.world).0 _
              (h (ground arith)))
      ])

  tunnel_rounds-ends :
      (k pid port deadline : ℕ) (s : Session W)
      → deadline ≤ time s.world + 100 * k
      → (tunnel_rounds (suc k) pid port deadline s).0 ≢ err out_of_fuel
  tunnel_rounds-ends zero pid port deadline s d =
      tunnel_round-ends zero pid port deadline s (λ early s' m. absurd (omega arith))
  tunnel_rounds-ends (suc k) pid port deadline s d =
      tunnel_round-ends (suc k) pid port deadline s (λ early s' m.
        let p = poll_takes_time pid s.world in
        tunnel_rounds-ends k pid port deadline s' (omega arith))

  -- With a clock that a sleep moves by at least its length, and a poll and a connection attempt that do not turn it
  -- back, the wait for a tunnel ends: its rounds suffice for its 30 seconds.
  pub wait_for_tunnel-ends :
      (pid port : ℕ) (s : Session W) → (wait_for_tunnel pid port s).0 ≢ err out_of_fuel
  unfolding wait_for_tunnel act ◌>>=◌
  wait_for_tunnel-ends pid port s =
      rw (clock_is s.world) (tunnel_rounds-ends 301 pid port (time s.world + 30000) _ (omega arith))
