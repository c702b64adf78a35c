-- ===== src/Drill/Commands.antt =====
-- scripts/drill.py: the commands and requests of the class `Drill`.
use k8s_dr.Prelude.{
  ℕ, String, none, some, List, [], ◌∷◌, Error, drill_failed, no_start, value_error, Result, Done,
  ok, err, Exec, pure, raise, lift, ask, catching, for_each, ◌>>=◌, ◌>>◌, leb, ◌==◌, if◌then◌else◌,
}
use k8s_dr.Text.{◌<>◌, leb_text, strip, splitlines, sorted_texts}
use k8s_dr.Calendar.{parse_time}
use k8s_dr.Watchdog.{Run, is_bot, runs_of}
use k8s_dr.Watchdog
use k8s_dr.Report.{and_then}
use k8s_dr.Return.Stages.{set_names}
use k8s_dr.Drill.State.{Drill, DrillSystem, in_world, with_world}

-- `parse`.
unfoldable pub parse : String → Result ℕ
parse text = elim (parse_time text) [
  | none ↦ err (value_error "time data does not match format")
  | some t ↦ ok t
]

-- The runs that GITHUB_TOKEN dispatched at or after `since`.
unfoldable pub bot_runs : ℕ → List Run → Result (List Run)
bot_runs since [] = ok []
bot_runs since (run ∷ runs) =
    let rest = bot_runs since runs in
    if is_bot run.actor
    then and_then (parse run.created_at)
        (λ t. and_then rest (λ rs. ok (if leb since t then run ∷ rs else rs)))
    else rest

unfoldable pub insert_run : Run → List Run → List Run
insert_run run [] = run ∷ []
insert_run run (other ∷ runs) =
    let rest = insert_run run runs in
    if leb_text run.created_at other.created_at then run ∷ other ∷ runs else other ∷ rest

-- `sorted(found, key=lambda run: run["created_at"])`.
unfoldable pub oldest_first : List Run → List Run
oldest_first [] = []
oldest_first (run ∷ runs) = insert_run run (oldest_first runs)

abbrev newest_of : List String → Result String
newest_of [] = err (drill_failed "no complete set under primary/")
newest_of (t ∷ []) = ok t
newest_of (t ∷ u ∷ ts) = newest_of (u ∷ ts)

module _ {W : Type 0} ⦃sys : DrillSystem W⦄ where
  abbrev pub now : Exec (Drill W) ℕ
  now = in_world sys.commands.now

  unfoldable pub run : List String → Exec (Drill W) String
  run argv = do
    result ← with_world (sys.commands.call argv [])
    if result.returncode == 0
        then pure result.stdout
        else raise (drill_failed "the command exited with an error")

  unfoldable pub environ_value : String → Exec (Drill W) String
  environ_value name = lift (Watchdog.env_require name sys.requests.environ)

  -- `push`: the work directory is copied to the folder of the drill.
  unfoldable pub push : Exec (Drill W) Done
  push = do
    bucket ← environ_value "STATE_BUCKET"
    id ← ask (λ m. ok (Watchdog.or_text m.state.id "None"))
    run (
        "gcloud"
        ∷ "storage"
        ∷ "rsync"
        ∷ "--recursive"
        ∷ ".drill/drill"
        ∷ ("gs://" <> bucket <> "/pipeline/drills/" <> id)
        ∷ [])
    pure tt

  unfoldable pub make : String → List String → Exec (Drill W) String
  make target variables = run ("make" ∷ "--no-print-directory" ∷ target ∷ "BIN=" ∷ variables)

  unfoldable pub output : String → String → Exec (Drill W) String
  output root name = do
    text ← run ("terraform" ∷ ("-chdir=infra/" <> root) ∷ "output" ∷ "-raw" ∷ name ∷ [])
    pure (strip text)

  -- `output` with raw=False.
  unfoldable pub output_map : String → String → Exec (Drill W) (List (String × String))
  output_map root name = do
    text ← run ("terraform" ∷ ("-chdir=infra/" <> root) ∷ "output" ∷ "-json" ∷ name ∷ [])
    lift (sys.commands.decode_map text)

  unfoldable pub init_root : String → Exec (Drill W) Done
  init_root root = do
    run (
        "terraform"
        ∷ ("-chdir=infra/" <> root)
        ∷ "init"
        ∷ "-input=false"
        ∷ "-backend-config=backend.hcl"
        ∷ [])
    pure tt

  unfoldable pub init_roots : Exec (Drill W) Done
  init_roots = for_each init_root ("shared" ∷ "primary" ∷ "recovery" ∷ [])

  unfoldable pub newest_primary_set : Exec (Drill W) String
  newest_primary_set = do
    bucket ← environ_value "BACKUP_BUCKET"
    listing ←
        run ("gcloud" ∷ "storage" ∷ "ls" ∷ ("gs://" <> bucket <> "/primary/*/manifest.json") ∷ [])
    lift (newest_of (sorted_texts (set_names (splitlines listing))))

  unfoldable pub check_dataset : Exec (Drill W) String
  check_dataset = do
    text ← run ("python3" ∷ "scripts/dataset.py" ∷ "check" ∷ "--host" ∷ sys.public_host ∷ [])
    pure (strip text)

  -- `copy_recovery_file`: the copy lands in the work directory.
  unfoldable pub copy_recovery_file : String → Exec (Drill W) Done
  copy_recovery_file name = do
    bucket ← environ_value "STATE_BUCKET"
    run (
        "gcloud"
        ∷ "storage"
        ∷ "cp"
        ∷ ("gs://" <> bucket <> "/pipeline/drill/" <> name)
        ∷ (".drill/drill/recovery/" <> name)
        ∷ [])
    pure tt

  -- The URL of `github_post`, whose token must be set.
  unfoldable pub post_url : String → Exec (Drill W) String
  post_url path = do
    let api =
        Watchdog.or_text (Watchdog.env_get "GITHUB_API_URL" sys.requests.environ)
          "https://api.github.com"
    repository ← environ_value "GITHUB_REPOSITORY"
    token ← environ_value "GITHUB_TOKEN"
    pure (api <> "/repos/" <> repository <> "/" <> path)

  -- `except DrillFailed: print`.
  unfoldable pub only_warn : Error → Exec (Drill W) Done
  only_warn (drill_failed _) = pure tt
  only_warn e = raise e

  unfoldable pub try_push : Exec (Drill W) Done
  try_push = catching push only_warn

  unfoldable pub runs_since : String → ℕ → Exec (Drill W) (List Run)
  runs_since workflow since = do
    body ← with_world (
        Watchdog.github sys.requests sys.public_host sys.primary_host
          ("actions/workflows/" <> workflow <> "/runs?event=workflow_dispatch&per_page=20"))
    runs ← lift (runs_of body)
    found ← lift (bot_runs since runs)
    pure (oldest_first found)

  unfoldable pub no_runs : Error → Exec (Drill W) (List Run)
  no_runs (no_start _) = pure []
  no_runs e = raise e

  -- `bot_runs_since` under the `try` of `wait_for_run`: an error of the API only waits.
  unfoldable pub runs_found : String → ℕ → Exec (Drill W) (List Run)
  runs_found workflow since = catching (runs_since workflow since) no_runs
