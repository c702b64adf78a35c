-- ===== src/Examples/Sessions.antt =====
-- Tunnels on a machine whose processes never end by themselves.
use k8s_dr.Prelude.{
  leb, ◌||◌, ==_iff, Bool-cases, ap, sym, inl, inr, ℕ, ◌+◌, ◌≡◌, ◌≢◌, refl, Bool, true, false, none,
  List, [], ◌∷◌, ok, err, out_of_fuel, any, arith, ◌==◌,
}
use k8s_dr.Tunnels.{Target}
use k8s_dr.Tunnels.Session.{TunnelSystem, Session, run_with_tunnels, wait_for_tunnel}
use k8s_dr.Tunnels.Reaping.{ProcessLaws}
use k8s_dr.Tunnels.Reaping.Started.{run_with_tunnels-reaps}
use k8s_dr.Tunnels.Waiting.{wait_for_tunnel-ends}

-- The time in milliseconds, how many processes were started, and which have been killed.
record Machine : Type 0 where
  time : ℕ
  started : ℕ
  killed : List ℕ

-- No tunnel runs under a number that no process has yet, or whose process was killed.
abbrev exited : ℕ → Machine → Bool
exited p m = leb m.started p || any (λ q. q == p) m.killed

abbrev machine : TunnelSystem Machine
machine = record {
  bind = λ port m. (true, m);
  monotonic = λ m. (m.time, m);
  sleep = λ n m. record m { time = m.time + n };
  popen = λ argv m. (ok m.started, record m { started = m.started + 1 });
  poll = λ p m. (none, m);
  read_error = λ p m. ("", m);
  connect = λ port m. (true, m);
  keyscan = λ port m. ((0, "key"), m);
  write_keys = λ keys m. (ok tt, m);
  terminate = λ p m. m;
  kill = λ p m. m;
  wait_briefly = λ p m. (false, m);
  wait = λ p m. record m { killed = p ∷ m.killed };
  run_command = λ argv ssh m. (ok 3, m);
}

next_start :
    (p started : ℕ) (killed : Bool)
    → ok started ≢ ok p
    → (leb started p || killed) ≡ true
    → (leb (started + 1) p || killed) ≡ true
next_start p started killed other h = elim (Bool-cases (p == started)) [
  | inl e ↦ absurd (other (ap ok (sym ((==_iff p started).0 e))))
  | inr e ↦ ground arith
]

killed-exited :
    (p started : ℕ) (killed : List ℕ) → (leb started p || any (λ q. q == p) (p ∷ killed)) ≡ true
killed-exited p started killed = ground arith

machine_laws : ProcessLaws machine exited
machine_laws = record {
  popen_keeps = λ p argv m other h. next_start p m.started _ other h;
  bind_keeps = λ p port m h. h;
  monotonic_keeps = λ p m h. h;
  sleep_keeps = λ p n m h. h;
  read_error_keeps = λ p q m h. h;
  connect_keeps = λ p port m h. h;
  keyscan_keeps = λ p port m h. h;
  write_keys_keeps = λ p keys m h. h;
  run_command_keeps = λ p argv ssh m h. h;
  terminate_keeps = λ p q m h. h;
  kill_keeps = λ p q m h. h;
  poll_keeps = λ p q m h. h;
  wait_briefly_keeps = λ p q m h. h;
  wait_keeps = λ p q m h. ground arith;
  poll_sees = λ p status m h. ground arith;
  wait_briefly_sees = λ p m h. ground arith;
  wait_ends = λ p m. killed-exited p m.started m.killed;
}

abbrev target : Target
target = record {
  role = "worker";
  instance_name = "w";
  project = "p";
  zone = "z";
  local_port = 2202;
}

abbrev idle : Machine
idle = record { time = 0; started = 0; killed = [] }

abbrev after_run : Session Machine
after_run =
    (run_with_tunnels ⦃sys = machine⦄ (target ∷ []) ("true" ∷ []) "known_hosts"
      (record { world = idle; processes = [] })).1

run_with_tunnels-reaps_example : exited 0 after_run.world ≡ true
run_with_tunnels-reaps_example =
    run_with_tunnels-reaps ⦃sys = machine⦄ exited machine_laws (target ∷ []) ("true" ∷ [])
      "known_hosts" idle 0 refl

wait_for_tunnel-ends_example :
    (wait_for_tunnel ⦃sys = machine⦄ 0 2202 (record { world = idle; processes = [] })).0
    ≢ err out_of_fuel
wait_for_tunnel-ends_example =
    wait_for_tunnel-ends ⦃sys = machine⦄ (λ m. m.time) (λ m. refl) (λ n m. omega arith)
      (λ p m. omega arith) (λ p m. omega arith) 0 2202 (record { world = idle; processes = [] })
