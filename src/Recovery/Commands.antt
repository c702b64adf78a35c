-- ===== src/Recovery/Commands.antt =====
-- scripts/recover.py: the commands, checks and waits of the class `Recovery`. A loop that waits takes
-- fuel: one round for each POLL_INTERVAL of its timeout, and two more.
use k8s_dr.Prelude.{
  ℕ, zero, suc, ◌+◌, ◌/◌, String, Bool, true, false, not, ◌||◌, Option, none, some, List, [], ◌∷◌,
  map, Error, stage_failed, key_error, value_error, out_of_fuel, Result, Done, ok, err, Exec, pure,
  raise, lift, raise_if, ask, catching, for_each, ◌>>=◌, ◌>>◌, take, leb, ◌==◌, if◌then◌else◌,
}
use k8s_dr.Text.{
  ◌=ᵗ◌, ◌<>◌, join, strip, words, splitlines, empty, contains, contains_char, drop_end, last_part,
  is_word,
}
use k8s_dr.Calendar.{parse_time, parse_set}
use k8s_dr.Recovery.State.{Machine, Completed, System, on_world, try_world, set_values}

abbrev pub poll_interval : ℕ
poll_interval = 5

-- The characters that `shlex.quote` leaves as they are.
unfoldable pub is_safe : ℕ → Bool
unfolding is_word
is_safe c =
    is_word c
    || c == b'@'
    || c == b'%'
    || c == b'+'
    || c == b'='
    || c == b':'
    || c == 44
    || c == b'.'
    || c == b'/'
    || c == b'-'

unfoldable pub escape_quotes : String → String
unfolding ◌<>◌
escape_quotes String.[] = ""
escape_quotes (String.◌∷◌ c s) =
    let rest = escape_quotes s in
    if Prim.Native.Char.code c == 39 then "'\"'\"'" <> rest else String.◌∷◌ c rest

unfoldable pub quote : String → String
unfolding is_safe escape_quotes
quote s =
    if empty s || contains_char (λ c. not (is_safe c)) s then "'" <> escape_quotes s <> "'" else s

unfoldable pub shell_join : List String → String
unfolding quote join
shell_join argv = join " " (map quote argv)

-- `node["…"]` and the remote command line of `kubectl`.
unfoldable pub kubectl_line : List (List String) → String
unfolding shell_join
kubectl_line commands = join " | " (
    map (λ c. shell_join ("sudo" ∷ "KUBECONFIG=/etc/kubernetes/admin.conf" ∷ "kubectl" ∷ c))
      commands)

unfoldable pub lookup : String → List (String × String) → Result String
lookup key [] = err (key_error key)
lookup key ((k, v) ∷ rest) = if k =ᵗ key then ok v else lookup key rest

abbrev strip_slash : String → String
strip_slash line = drop_end (λ c. c == b'/') line

-- The names of a listing under recovery/.
unfoldable pub listed_names : List String → List String
unfolding last_part
listed_names [] = []
listed_names (line ∷ lines) =
    let rest = listed_names lines in
    if empty (strip line) then rest else last_part b'/' (strip_slash line) ∷ rest

-- The loop of `require_backups_suspended`: no set has a name of a time from `started` on.
unfoldable pub check_sets : ℕ → List String → Result Done
check_sets started [] = ok tt
check_sets started (name ∷ names) =
    let rest = check_sets started names in
    elim (parse_set name) [
      | none ↦ err (stage_failed ("recovery/" <> name <> " is not a set name"))
      | some written ↦ elim (leb started written) [
        | true ↦ err (
            stage_failed
              ("recovery/" <> name <> " was written during this run, before the cutover"))
        | false ↦ rest
      ]
    ]

abbrev text_or : Option String → String → String
text_or none d = d
text_or (some t) d = t

-- `strptime(self.state["started"], TIME_FORMAT)`.
abbrev pub started_time : Option String → Result ℕ
started_time none = err (value_error "the run has no start")
started_time (some text) = elim (parse_time text) [
  | none ↦ err (value_error "time data does not match format")
  | some t ↦ ok t
]

abbrev pub rounds : ℕ → ℕ
rounds timeout = timeout / poll_interval + 2

abbrev last_word : List String → String
last_word [] = ""
last_word (w ∷ []) = w
last_word (w ∷ v ∷ ws) = last_word (v ∷ ws)

abbrev is_200 : Option ℕ → Bool
is_200 none = false
is_200 (some status) = status == 200

abbrev pub is_address : Option String → String → Bool
is_address none address = false
is_address (some recorded) address = recorded =ᵗ address

module _ {W P : Type 0} ⦃sys : System W⦄ where
  unfoldable pub call : List String → List (String × String) → Exec (Machine W P) Completed
  call argv env = try_world (sys.call argv env)

  unfoldable pub run_env : List String → List (String × String) → Exec (Machine W P) String
  run_env argv env = do
    result ← call argv env
    if result.returncode == 0
        then pure result.stdout
        else raise (stage_failed (shell_join (take 3 argv) <> " exited with an error"))

  abbrev pub run : List String → Exec (Machine W P) String
  run argv = run_env argv []

  unfoldable pub make : String → List String → Exec (Machine W P) String
  make target variables = run ("make" ∷ "--no-print-directory" ∷ target ∷ variables)

  unfoldable pub output : String → String → Exec (Machine W P) String
  output root name = do
    text ← run ("terraform" ∷ ("-chdir=infra/" <> root) ∷ "output" ∷ "-raw" ∷ name ∷ [])
    let value = strip text
    if empty value
        then raise (stage_failed ("infra/" <> root <> " has an empty output " <> name))
        else pure value

  unfoldable pub output_json : String → String → Exec (Machine W P) (List (String × String))
  output_json root name = do
    text ← run ("terraform" ∷ ("-chdir=infra/" <> root) ∷ "output" ∷ "-json" ∷ name ∷ [])
    lift (sys.decode_map text)

  -- A round whose condition failed: at the deadline the wait fails, before it the machine sleeps.
  unfoldable pub sleep_until : ℕ → String → Exec (Machine W P) Done → Exec (Machine W P) Done
  sleep_until deadline what rest = do
    now ← on_world sys.now
    if leb deadline now
        then raise (stage_failed what)
        else (on_world (λ w. (tt, sys.sleep poll_interval w)) >> rest)

  -- The `while` loop of `wait`.
  unfoldable pub wait_loop : ℕ → ℕ → String → Exec (Machine W P) Bool → Exec (Machine W P) Done
  wait_loop zero deadline what condition = raise out_of_fuel
  wait_loop (suc fuel) deadline what condition =
      let rest = wait_loop fuel deadline what condition in
      do holds ← condition; if holds then pure tt else sleep_until deadline what rest

  unfoldable pub wait : String → Exec (Machine W P) Bool → ℕ → Exec (Machine W P) Done
  wait what condition timeout = do
    now ← on_world sys.now
    wait_loop (rounds timeout) (now + timeout) what condition

  unfoldable pub resolve : String → Exec (Machine W P) String
  resolve host = do
    answer ← run ("dig" ∷ "+short" ∷ host ∷ "@1.1.1.1" ∷ [])
    pure (last_word (words answer))

  unfoldable pub account_disabled : String → Exec (Machine W P) String
  account_disabled account = do
    text ← run (
        "gcloud" ∷ "iam" ∷ "service-accounts" ∷ "describe" ∷ account ∷ "--format=value(disabled)"
        ∷ [])
    pure (strip text)

  unfoldable pub resolves_to : String → String → Exec (Machine W P) Bool
  resolves_to host address = do found ← resolve host; pure (found =ᵗ address)

  unfoldable pub wait_for_record : String → String → Exec (Machine W P) Done
  wait_for_record host address =
      wait (host <> " does not resolve to the recovery address at 1.1.1.1")
        (resolves_to host address) 180

  unfoldable pub healthy : String → Exec (Machine W P) Bool
  healthy host = do
    status ← on_world (sys.http_status ("https://" <> host <> "/api/healthz"))
    pure (is_200 status)

  unfoldable pub wait_for_health : String → Exec (Machine W P) Done
  wait_for_health host =
      wait ("https://" <> host <> "/api/healthz does not return 200") (healthy host) 300

  unfoldable pub bucket_or : Option String → Exec (Machine W P) String
  bucket_or (some name) = pure name
  bucket_or none = do
    name ← output "shared" "backup_bucket_name"
    set_values (λ v. record v { bucket = some name })
    pure name

  -- `bucket`: read once, and kept in the values.
  unfoldable pub bucket : Exec (Machine W P) String
  bucket = do known ← ask (λ m. ok m.state.values.bucket); bucket_or known

  unfoldable pub kubectl : List (List String) → Exec (Machine W P) String
  kubectl commands = do
    node ← ask (λ m. sys.read_inventory m.world)
    run (
        "gcloud"
        ∷ "compute"
        ∷ "ssh"
        ∷ node.instance_name
        ∷ "--zone"
        ∷ node.zone
        ∷ "--project"
        ∷ node.project
        ∷ "--tunnel-through-iap"
        ∷ ("--command=" <> kubectl_line commands)
        ∷ [])

  unfoldable pub backup_suspend : Exec (Machine W P) String
  backup_suspend = do
    text ← kubectl (
        ("get" ∷ "cronjob/gitea-backup" ∷ "--namespace" ∷ "gitea"
          ∷ "--output=jsonpath={.spec.suspend}" ∷ [])
        ∷ [])
    pure (strip text)

  unfoldable pub recovery_sets : Exec (Machine W P) (List String)
  recovery_sets = do
    name ← bucket
    listing ← call ("gcloud" ∷ "storage" ∷ "ls" ∷ ("gs://" <> name <> "/recovery/") ∷ []) []
    if listing.returncode == 0
        then pure (listed_names (splitlines listing.stdout))
        else if contains "matched no objects" listing.stderr
        then pure []
        else raise (stage_failed "the listing of the recovery prefix failed")

  unfoldable pub require_backups_suspended : Exec (Machine W P) Done
  require_backups_suspended = do
    suspend ← backup_suspend
    raise_if (not (suspend =ᵗ "true")) (
        stage_failed (
          "the recovery backup CronJob has suspend="
          <> (if empty suspend then "<empty>" else suspend)))
    started ← ask (λ m. started_time m.state.started)
    names ← recovery_sets
    lift (check_sets started names)

  unfoldable pub init_root : String → Exec (Machine W P) Done
  init_root root = do
    run (
        "terraform"
        ∷ ("-chdir=infra/" <> root)
        ∷ "init"
        ∷ "-input=false"
        ∷ "-backend-config=backend.hcl"
        ∷ [])
    pure tt

  unfoldable pub init_roots : Exec (Machine W P) Done
  init_roots = for_each init_root ("shared" ∷ "primary" ∷ "recovery" ∷ [])

  unfoldable pub inventory : Exec (Machine W P) Done
  inventory = do make "inventory" ("CLUSTER=recovery" ∷ []); pure tt

  -- `except StageFailed: address = ""`.
  unfoldable pub or_no_address : Error → Exec (Machine W P) String
  or_no_address (stage_failed _) = pure ""
  or_no_address e = raise e

  unfoldable pub current_address : Exec (Machine W P) String
  current_address = catching (output "recovery" "public_web_address") or_no_address

  unfoldable pub require_recorded_environment : Exec (Machine W P) Done
  require_recorded_environment = do
    address ← current_address
    recorded ← ask (λ m. ok m.state.values.recovery_address)
    raise_if (not (is_address recorded address)) (
        stage_failed (
          "the recovery environment that this run recorded no longer exists; "
          <> "archive the run state with reset and start again"))
