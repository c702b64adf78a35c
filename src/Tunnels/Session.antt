-- ===== src/Tunnels/Session.antt =====
-- scripts/run_with_iap.py: the tunnels as processes, the host keys, and the command that runs behind them. Times
-- are milliseconds. A wait of a tunnel has a round for each 100 ms of its 30 seconds, a scan one for each second,
-- and two more.
use k8s_dr.Prelude.{
  ℕ, zero, suc, ◌+◌, String, Bool, true, false, not, ◌&&◌, Option, none, some, List, [], ◌∷◌, ◌++◌,
  value_error, runtime_error, out_of_fuel, Result, Done, ok, err, Exec, pure, raise, raise_if, ask,
  ◌>>=◌, ◌>>◌, leb, ltb, ◌==◌, if◌then◌else◌,
}
use k8s_dr.Text.{◌=ᵗ◌, ◌<>◌, empty, strip, join, drop_end, is_space}
use k8s_dr.Text.Decimal.{show}
use k8s_dr.Calendar.{stamp}
use k8s_dr.Tunnels.{Target, ensure_ports_available}

-- What the script asks of the system: sockets, processes, files and the clock.
pub record TunnelSystem (W : Type 0) : Type 0 where
  pub bind : ℕ → W → Bool × W
  pub monotonic : W → ℕ × W
  pub sleep : ℕ → W → W
  pub popen : List String → W → Result ℕ × W
  pub poll : ℕ → W → Option ℕ × W
  pub read_error : ℕ → W → String × W
  pub connect : ℕ → W → Bool × W
  pub keyscan : ℕ → W → (ℕ × String) × W
  pub write_keys : String → W → Result Done × W
  pub terminate : ℕ → W → W
  pub kill : ℕ → W → W
  pub wait_briefly : ℕ → W → Bool × W
  pub wait : ℕ → W → W
  pub run_command : List String → String → W → Result ℕ × W

-- The world, and the list `processes`.
pub record Session (W : Type 0) : Type 0 where
  pub world : W
  pub processes : List ℕ

module _ {W : Type 0} where
  unfoldable pub act : {A : Type 0} → (W → A × W) → Exec (Session W) A
  act f s = let (a, w) = f s.world in (ok a, record s { world = w })

  unfoldable pub attempt : {A : Type 0} → (W → Result A × W) → Exec (Session W) A
  attempt f s = let (r, w) = f s.world in (r, record s { world = w })

  -- `processes.append`.
  unfoldable pub append_process : ℕ → Exec (Session W) Done
  append_process pid s = (ok tt, record s { processes = s.processes ++ pid ∷ [] })

abbrev tunnel_arguments : Target → List String
tunnel_arguments t =
    "gcloud"
    ∷ "compute"
    ∷ "start-iap-tunnel"
    ∷ t.instance_name
    ∷ "22"
    ∷ ("--local-host-port=127.0.0.1:" <> show t.local_port)
    ∷ ("--project=" <> t.project)
    ∷ ("--zone=" <> t.zone)
    ∷ "--quiet"
    ∷ []

abbrev suffix_of : String → String
suffix_of detail = if empty detail then "" else ": " <> detail

abbrev no_command : List String → Bool
no_command [] = true
no_command (_ ∷ _) = false

-- ANSIBLE_SSH_COMMON_ARGS, with the quoted path of the known hosts.
abbrev ssh_arguments : String → String
ssh_arguments known_hosts =
    "-o StrictHostKeyChecking=yes -o UserKnownHostsFile=" <> known_hosts
    <> " -o ServerAliveInterval=30 -o ServerAliveCountMax=4"

module _ {W : Type 0} ⦃sys : TunnelSystem W⦄ where
  -- `_start_tunnel`.
  unfoldable pub start_tunnel : Target → Exec (Session W) ℕ
  start_tunnel t = attempt (sys.popen (tunnel_arguments t))

  unfoldable pub exited_tunnel : ℕ → ℕ → Exec (Session W) Done
  exited_tunnel pid code = do
    text ← act (sys.read_error pid)
    raise (runtime_error ("IAP tunnel exited with status " <> show code <> suffix_of (strip text)))

  unfoldable pub try_connect : ℕ → Exec (Session W) Done → Exec (Session W) Done
  try_connect port rest = do
    connected ← act (sys.connect port)
    if connected then pure tt else (act (λ w. (tt, sys.sleep 100 w)) >>= λ _. rest)

  -- A round of the loop, with the code of the process.
  unfoldable pub poll_round : ℕ → ℕ → Exec (Session W) Done → Option ℕ → Exec (Session W) Done
  poll_round pid port rest (some code) = exited_tunnel pid code
  poll_round pid port rest none = try_connect port rest

  unfoldable pub tunnel_rounds : ℕ → ℕ → ℕ → ℕ → Exec (Session W) Done
  tunnel_rounds zero pid port deadline = raise out_of_fuel
  tunnel_rounds (suc fuel) pid port deadline =
      let rest = tunnel_rounds fuel pid port deadline in
      do
        t ← act sys.monotonic
        if ltb t deadline
            then (act (sys.poll pid) >>= poll_round pid port rest)
            else raise (
                runtime_error ("IAP tunnel on local port " <> show port <> " did not become ready"))

  -- `wait_for_tunnel`.
  unfoldable pub wait_for_tunnel : ℕ → ℕ → Exec (Session W) Done
  wait_for_tunnel pid port = do t ← act sys.monotonic; tunnel_rounds 302 pid port (t + 30000)

  -- A scan that found no key.
  unfoldable pub scan_again : Target → ℕ → Exec (Session W) String → Exec (Session W) String
  scan_again target deadline rest = do
    t ← act sys.monotonic
    raise_if (leb deadline t) (runtime_error ("host key scan failed for " <> target.role))
    act (λ w. (tt, sys.sleep 1000 w))
    rest

  unfoldable pub scan_rounds : ℕ → Target → ℕ → Exec (Session W) String
  scan_rounds zero target deadline = raise out_of_fuel
  scan_rounds (suc fuel) target deadline =
      let rest = scan_rounds fuel target deadline in
      do
        completed ← act (sys.keyscan target.local_port)
        if completed.0 == 0 && not (empty (strip completed.1))
            then pure (drop_end is_space completed.1)
            else scan_again target deadline rest

  -- `scan_host_key`.
  unfoldable pub scan_host_key : Target → Exec (Session W) String
  scan_host_key target = do t ← act sys.monotonic; scan_rounds 32 target (t + 30000)

  unfoldable pub scan_all : List Target → Exec (Session W) (List String)
  scan_all [] = pure []
  scan_all (t ∷ ts) = do key ← scan_host_key t; keys ← scan_all ts; pure (key ∷ keys)

  -- `write_known_hosts`: every key is scanned before the file is opened.
  unfoldable pub write_known_hosts : List Target → Exec (Session W) Done
  write_known_hosts targets = do
    keys ← scan_all targets
    attempt (sys.write_keys (join "\n" keys <> "\n"))

  unfoldable pub start_all : List Target → Exec (Session W) Done
  start_all [] = pure tt
  start_all (t ∷ ts) = do pid ← start_tunnel t; append_process pid; start_all ts

  -- The loop over `zip(processes, targets, strict=True)`.
  unfoldable pub wait_all : List ℕ → List Target → Exec (Session W) Done
  wait_all [] [] = pure tt
  wait_all (pid ∷ pids) (t ∷ ts) = do wait_for_tunnel pid t.local_port; wait_all pids ts
  wait_all _ _ = raise (value_error "zip() arguments have different lengths")

  -- The first loop of `_stop_tunnels`, with the list `active`.
  unfoldable pub ask_to_stop : List ℕ → W → List ℕ × W
  ask_to_stop [] w = ([], w)
  ask_to_stop (pid ∷ pids) w =
      let polled = sys.poll pid w in
      elim polled.0 [
        | some code ↦ ask_to_stop pids polled.1
        | none ↦
            let later = ask_to_stop pids (sys.terminate pid polled.1) in (pid ∷ later.0, later.1)
      ]

  unfoldable pub stop_one : ℕ → W → W
  stop_one pid w =
      let waited = sys.wait_briefly pid w in
      if waited.0 then waited.1 else sys.wait pid (sys.kill pid waited.1)

  unfoldable pub stop_active : List ℕ → W → W
  stop_active [] w = w
  stop_active (pid ∷ pids) w = stop_active pids (stop_one pid w)

  -- `_stop_tunnels`.
  unfoldable pub stop_tunnels : List ℕ → W → W
  stop_tunnels pids w = let asked = ask_to_stop pids w in stop_active asked.0 asked.1

  -- `try: … finally: _stop_tunnels(processes)`.
  unfoldable pub reaping : Exec (Session W) ℕ → Exec (Session W) ℕ
  reaping body s =
      let (r, s') = body s in (r, record s' { world = stop_tunnels s'.processes s'.world })

  -- What stands in the `try`.
  unfoldable pub with_tunnels : List Target → List String → String → Exec (Session W) ℕ
  with_tunnels targets command known_hosts = do
    start_all targets
    pids ← ask (λ s. ok s.processes)
    wait_all pids targets
    write_known_hosts targets
    attempt (sys.run_command command (ssh_arguments known_hosts))

  -- `ensure_ports_available`, over the session.
  unfoldable pub ports_available : List Target → Exec (Session W) Done
  ports_available targets = attempt (ensure_ports_available sys.bind targets)

  -- `run_with_tunnels`.
  unfoldable pub run_with_tunnels : List Target → List String → String → Exec (Session W) ℕ
  run_with_tunnels targets command known_hosts = do
    raise_if (no_command command) (value_error "Ansible command must not be empty")
    ports_available targets
    reaping (with_tunnels targets command known_hosts)

-- The command line in front of `--` and behind it.
unfoldable pub cut_command : List String → Option (List String × List String)
cut_command [] = none
cut_command (a ∷ rest) =
    let later = cut_command rest in
    if a =ᵗ "--" then some ([], rest) else elim later [ none ↦ none | some p ↦ some (a ∷ p.0, p.1) ]

-- `parse_cli`, but for the parser of the options in front of `--`.
unfoldable pub parse_cli : List String → Result (List String × List String)
parse_cli argv = elim (cut_command argv) [
  | none ↦ err (value_error "separate the Ansible command with --")
  | some p ↦ if no_command p.1 then err (value_error "Ansible command must not be empty") else ok p
]

-- `format_run_summary`, with the elapsed time in whole seconds.
unfoldable pub format_run_summary : ℕ → ℕ → ℕ → ℕ → String
format_run_summary started finished elapsed returncode =
    "run_with_iap: started "
    <> stamp started
    <> ", finished "
    <> stamp finished
    <> ", elapsed "
    <> show elapsed
    <> "s, exit "
    <> show returncode
