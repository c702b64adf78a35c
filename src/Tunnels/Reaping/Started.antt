-- ===== src/Tunnels/Reaping/Started.antt =====
-- No tunnel that scripts/run_with_iap.py started is left behind, however its run ends.
use mathlib.Core.List.{Memᴰ}
use mathlib.Core.List.Memᴰ
use k8s_dr.Prelude.{
  ℕ, zero, suc, ◌≡◌, ◌≢◌, refl, ap, String, Bool, true, Option, none, some, List, [], ◌∷◌, ◌++◌,
  Result, ok, err, Exec, Done, for_each, continue, raise_if, inl, inr, ◌⊎◌, arith, ◌>>=◌, ◌==◌,
  ==_iff, Bool-cases,
}
use k8s_dr.Prelude.Members.{All-mem}
use k8s_dr.Prelude.Keeps.{
  Keeps, Keeps-pure, Keeps-raise, Keeps-if, Keeps-ask, Keeps-lift, Keeps-bind, action_rules,
}
use k8s_dr.Tunnels.{Target, probe_port, ensure_ports_available}
use k8s_dr.Tunnels.Session.{
  TunnelSystem, Session, act, attempt, append_process, start_tunnel, exited_tunnel, try_connect,
  poll_round, tunnel_rounds, wait_for_tunnel, scan_again, scan_rounds, scan_host_key, scan_all,
  write_known_hosts, start_all, wait_all, reaping, with_tunnels, ports_available, run_with_tunnels,
}
use k8s_dr.Tunnels.Reaping.{ProcessLaws, stop_tunnels-ends, stop_tunnels-keeps}

mem_append : (p : ℕ) (xs ys : List ℕ) → Memᴰ p xs → Memᴰ p (xs ++ ys)
mem_append p [] ys m = absurd (Memᴰ.not-nil m)
mem_append p (x ∷ xs) ys (Memᴰ.head e) = Memᴰ.head e
mem_append p (x ∷ xs) ys (Memᴰ.tail m) = Memᴰ.tail (mem_append p xs ys m)

mem_last : (p : ℕ) (xs : List ℕ) → Memᴰ p (xs ++ p ∷ [])
mem_last p [] = Memᴰ.head refl
mem_last p (x ∷ xs) = Memᴰ.tail (mem_last p xs)

module _ {W : Type 0} (exited : ℕ → W → Bool) (p : ℕ) where
  -- No tunnel runs under the number, or it is in the list `processes`.
  abbrev Held : Session W → Type 0
  Held s = (exited p s.world ≡ true) ⊎ Memᴰ p s.processes

  Keeps-act :
      {A : Type 0} (f : W → A × W)
      → ((w : W) → exited p w ≡ true → exited p (f w).1 ≡ true)
      → Keeps Held (act f)
  unfolding act
  Keeps-act f k = record { at = λ s h. elim h [ inl e ↦ inl (k s.world e) | inr m ↦ inr m ] }

  Keeps-attempt :
      {A : Type 0} (f : W → Result A × W)
      → ((w : W) → exited p w ≡ true → exited p (f w).1 ≡ true)
      → Keeps Held (attempt f)
  unfolding attempt
  Keeps-attempt f k = record { at = λ s h. elim h [ inl e ↦ inl (k s.world e) | inr m ↦ inr m ] }

  module _ ⦃sys : TunnelSystem W⦄ (laws : ProcessLaws sys exited) where
    Keeps-exited_tunnel : (pid status : ℕ) → Keeps Held (exited_tunnel pid status)
    unfolding exited_tunnel
    Keeps-exited_tunnel pid status =
        Keeps-bind _ _ (Keeps-act _ (laws.read_error_keeps p pid)) (λ _. Keeps-raise _)

    Keeps-sleep : (n : ℕ) → Keeps Held (act (λ w. (tt, sys.sleep n w)))
    Keeps-sleep n = Keeps-act _ (laws.sleep_keeps p n)

    Keeps-now : Keeps Held (act sys.monotonic)
    Keeps-now = Keeps-act _ (laws.monotonic_keeps p)

    Keeps-try_connect :
        (port : ℕ) (rest : Exec (Session W) Done)
        → Keeps Held rest
        → Keeps Held (try_connect port rest)
    unfolding try_connect
    Keeps-try_connect port rest k =
        Keeps-bind _ _ (Keeps-act _ (laws.connect_keeps p port))
          (λ connected. search (action_rules, Keeps-sleep))

    Keeps-poll_round :
        (pid port : ℕ) (rest : Exec (Session W) Done) (o : Option ℕ)
        → Keeps Held rest
        → Keeps Held (poll_round pid port rest o)
    unfolding poll_round
    Keeps-poll_round pid port rest (some status) k = Keeps-exited_tunnel pid status
    Keeps-poll_round pid port rest none k = Keeps-try_connect port rest k

    Keeps-tunnel_rounds :
        (fuel pid port deadline : ℕ) → Keeps Held (tunnel_rounds fuel pid port deadline)
    unfolding tunnel_rounds
    Keeps-tunnel_rounds zero pid port deadline = Keeps-raise _
    Keeps-tunnel_rounds (suc fuel) pid port deadline =
        let k = Keeps-tunnel_rounds fuel pid port deadline in
        Keeps-bind _ _ Keeps-now (λ t.
          Keeps-if _ _ _
            (Keeps-bind _ _ (Keeps-act _ (laws.poll_keeps p pid))
              (λ o. Keeps-poll_round pid port _ o k))
            (Keeps-raise _))

    Keeps-wait_for_tunnel : (pid port : ℕ) → Keeps Held (wait_for_tunnel pid port)
    unfolding wait_for_tunnel
    Keeps-wait_for_tunnel pid port =
        Keeps-bind _ _ Keeps-now (λ t. Keeps-tunnel_rounds 302 pid port _)

    Keeps-scan_again :
        (target : Target) (deadline : ℕ) (rest : Exec (Session W) String)
        → Keeps Held rest
        → Keeps Held (scan_again target deadline rest)
    unfolding scan_again
    Keeps-scan_again target deadline rest k = search (action_rules, Keeps-now, Keeps-sleep) depth 8

    Keeps-scan_rounds :
        (fuel : ℕ) (target : Target) (deadline : ℕ) → Keeps Held (scan_rounds fuel target deadline)
    unfolding scan_rounds
    Keeps-scan_rounds zero target deadline = Keeps-raise _
    Keeps-scan_rounds (suc fuel) target deadline =
        let k = Keeps-scan_rounds fuel target deadline in
        Keeps-bind _ _ (Keeps-act _ (laws.keyscan_keeps p target.local_port))
          (λ found. Keeps-if _ _ _ (Keeps-pure _) (Keeps-scan_again target deadline _ k))

    Keeps-scan_host_key : (target : Target) → Keeps Held (scan_host_key target)
    unfolding scan_host_key
    Keeps-scan_host_key target = Keeps-bind _ _ Keeps-now (λ t. Keeps-scan_rounds 32 target _)

    Keeps-scan_all : (targets : List Target) → Keeps Held (scan_all targets)
    unfolding scan_all
    Keeps-scan_all [] = Keeps-pure _
    Keeps-scan_all (t ∷ ts) =
        Keeps-bind _ _ (Keeps-scan_host_key t)
          (λ key. Keeps-bind _ _ (Keeps-scan_all ts) (λ keys. Keeps-pure _))

    Keeps-write_known_hosts : (targets : List Target) → Keeps Held (write_known_hosts targets)
    unfolding write_known_hosts
    Keeps-write_known_hosts targets =
        Keeps-bind _ _ (Keeps-scan_all targets)
          (λ keys. Keeps-attempt _ (laws.write_keys_keeps p _))

    -- A tunnel that starts under the number is put in the list at once.
    started-Held :
        (r : Result ℕ) (w : W) (rest : Exec (Session W) Done) (pids : List ℕ)
        → Keeps Held rest
        → (exited p w ≡ true) ⊎ ((r ≡ ok p) ⊎ Memᴰ p pids)
        → Held
            (continue r
              (λ pid. append_process pid >>= λ _. rest)
              (record { world = w; processes = pids })).1
    unfolding append_process ◌>>=◌
    started-Held (err e) w rest pids k (inl h) = inl h
    started-Held (err e) w rest pids k (inr (inl h)) = absurd (ground arith)
    started-Held (err e) w rest pids k (inr (inr h)) = inr h
    started-Held (ok q) w rest pids k (inl h) = k.at _ (inl h)
    started-Held (ok q) w rest pids k (inr (inl h)) =
        let e : p ≡ q = ground arith in k.at _ (inr (rw e (mem_last q pids)))
    started-Held (ok q) w rest pids k (inr (inr h)) = k.at _ (inr (mem_append p pids _ h))

    returned-or : (r : Result ℕ) → (r ≡ ok p) ⊎ (r ≢ ok p)
    returned-or (err e) = inr (λ h. ground arith)
    returned-or (ok q) = elim (Bool-cases (q == p)) [
      | inl e ↦ inl (ap ok ((==_iff q p).0 e))
      | inr e ↦ inr (λ h. ground arith)
    ]

    Keeps-start_all : (targets : List Target) → Keeps Held (start_all targets)
    unfolding start_all start_tunnel attempt ◌>>=◌
    Keeps-start_all [] = Keeps-pure _
    Keeps-start_all (t ∷ ts) = record {
      at = λ s h. started-Held _ _ (start_all ts) s.processes (Keeps-start_all ts) (elim h [
        | inl e ↦ elim (returned-or (sys.popen _ s.world).0) [
          | inl started ↦ inr (inl started)
          | inr other ↦ inl (laws.popen_keeps p _ s.world other e)
        ]
        | inr m ↦ inr (inr m)
      ]);
    }

    Keeps-wait_all : (pids : List ℕ) (targets : List Target) → Keeps Held (wait_all pids targets)
    unfolding wait_all
    Keeps-wait_all [] [] = Keeps-pure _
    Keeps-wait_all (pid ∷ pids) (t ∷ ts) =
        Keeps-bind _ _ (Keeps-wait_for_tunnel pid t.local_port) (λ _. Keeps-wait_all pids ts)
    Keeps-wait_all [] (t ∷ ts) = Keeps-raise _
    Keeps-wait_all (pid ∷ pids) [] = Keeps-raise _

    Keeps-with_tunnels :
        (targets : List Target) (command : List String) (known_hosts : String)
        → Keeps Held (with_tunnels targets command known_hosts)
    unfolding with_tunnels
    Keeps-with_tunnels targets command known_hosts = Keeps-bind _ _ (Keeps-start_all targets) (λ _.
        Keeps-bind _ _ (Keeps-ask _) (λ pids. Keeps-bind _ _ (Keeps-wait_all pids targets) (λ _.
          Keeps-bind _ _ (Keeps-write_known_hosts targets)
            (λ _. Keeps-attempt _ (laws.run_command_keeps p _ _)))))

    -- Behind the `finally`, nothing runs under the number.
    reaping-exited :
        (body : Exec (Session W) ℕ) (s : Session W)
        → Keeps Held body
        → Held s
        → exited p (reaping body s).1.world ≡ true
    unfolding reaping
    reaping-exited body s k h =
        let (r, s') = body s in
        elim (k.at s h) [
          | inl e ↦ stop_tunnels-keeps exited laws p s'.processes s'.world e
          | inr m ↦ All-mem _ p s'.processes (stop_tunnels-ends exited laws s'.processes s'.world) m
        ]

    abbrev Exited : W → Type 0
    Exited w = exited p w ≡ true

    Keeps-probe_port : (port : ℕ) → Keeps Exited (probe_port sys.bind port)
    unfolding probe_port
    Keeps-probe_port port = record {
      at = λ w h. elim (Bool-cases (sys.bind port w).0) [
        | inl e ↦ rw e (laws.bind_keeps p port w h)
        | inr e ↦ rw e (laws.bind_keeps p port w h)
      ];
    }

    Keeps-probe_ports : (ports : List ℕ) → Keeps Exited (for_each (probe_port sys.bind) ports)
    unfolding for_each
    Keeps-probe_ports [] = Keeps-pure _
    Keeps-probe_ports (port ∷ ports) =
        Keeps-bind _ _ (Keeps-probe_port port) (λ _. Keeps-probe_ports ports)

    Keeps-ports : (targets : List Target) → Keeps Exited (ensure_ports_available sys.bind targets)
    unfolding ensure_ports_available
    Keeps-ports targets = Keeps-bind _ _ (Keeps-lift _) (λ _. Keeps-probe_ports _)

    checked-exited :
        (r : Result Done) (body : Exec (Session W) ℕ) (w : W)
        → Keeps Held body
        → exited p w ≡ true
        → exited p (continue r (λ _. reaping body) (record { world = w; processes = [] })).1.world
          ≡ true
    checked-exited (ok a) body w k h = reaping-exited body _ k (inl h)
    checked-exited (err e) body w k h = h

-- However a run of the tunnels ends, a number under which no tunnel ran when it began has none when it ends: each
-- tunnel that it started has ended.
pub run_with_tunnels-reaps :
    {W : Type 0} ⦃sys : TunnelSystem W⦄ (exited : ℕ → W → Bool) (laws : ProcessLaws sys exited)
    (targets : List Target) (command : List String) (known_hosts : String) (w : W) (p : ℕ)
    → exited p w ≡ true
    → exited p
        (run_with_tunnels targets command known_hosts
          (record { world = w; processes = [] })).1.world
      ≡ true
unfolding run_with_tunnels ports_available attempt raise_if ◌>>=◌
run_with_tunnels-reaps exited laws targets [] known_hosts w p h = h
run_with_tunnels-reaps ⦃sys = sys⦄ exited laws targets (c ∷ cs) known_hosts w p h =
    checked-exited exited p laws (ensure_ports_available sys.bind targets w).0 _ _
      (Keeps-with_tunnels exited p laws targets (c ∷ cs) known_hosts)
      ((Keeps-ports exited p laws targets).at w h)
