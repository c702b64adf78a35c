-- ===== src/Watchdog.antt =====
-- scripts/watchdog.py: the conditions under which a recovery starts without a person. An answer of a
-- service is its status and its decoded body; the clock is read in whole seconds.
pub mod Checkers
pub mod CheckersLaws
pub mod Conditions
pub mod Dispatch
use k8s_dr.Prelude.{
  ℕ, zero, suc, ◌+◌, ◌-◌, String, Bool, true, false, not, ◌&&◌, ◌||◌, Option, none, some, List, [],
  ◌∷◌, Error, no_start, key_error, runtime_error, Result, Done, ok, err, Exec, pure, raise, lift,
  raise_if, handle, catching, continue, ◌>>=◌, ◌>>◌, length, keep, any, first, ltb, ◌==◌,
  if◌then◌else◌,
}
use k8s_dr.Text.{◌=ᵗ◌, ◌<>◌, empty, split, leb_text, last_part, sorted_texts, same_texts}
use k8s_dr.Calendar.{stamp}
use k8s_dr.Watchdog.Checkers.{Series, every_checker_failed, window, lag}

-- A workflow run, as the GitHub API lists it. `actor` is the login of the triggering actor.
pub record Run : Type 0 where
  pub id : ℕ
  pub status : String
  pub conclusion : Option String
  pub actor : Option String
  pub created_at : String
  pub url : String

-- A record of a DNS answer: its type and its data.
pub record Answer : Type 0 where
  pub kind : ℕ
  pub address : String

-- An uptime check: its name and the host that it watches.
pub record Config : Type 0 where
  pub name : String
  pub host : Option String

pub data Body : Type 0 where
  workflow_runs : List Run → Body
  dns_answers : List Answer → Body
  check_configs : List Config → Body
  time_series : Bool → List Series → Body
  other : Body

pub record Response : Type 0 where
  pub status : Option ℕ
  pub body : Body

-- The class `System`: its requests and its clock, over a world that they change.
pub record System (W : Type 0) : Type 0 where
  pub environ : List (String × String)
  pub get : String → W → Response × W
  pub post : String → W → Response × W
  pub access_token : W → Result String × W
  pub now : W → ℕ × W

unfoldable pub env_get : String → List (String × String) → Option String
env_get name [] = none
env_get name ((k, v) ∷ rest) = if k =ᵗ name then some v else env_get name rest

-- `environ[name]`.
unfoldable pub env_require : String → List (String × String) → Result String
unfolding env_get
env_require name env = elim (env_get name env) [ none ↦ err (key_error name) | some v ↦ ok v ]

abbrev pub or_text : Option String → String → String
or_text none d = d
or_text (some v) d = v

abbrev pub is_text : Option String → String → Bool
is_text none t = false
is_text (some s) t = s =ᵗ t

abbrev pub is_status : Option ℕ → ℕ → Bool
is_status none n = false
is_status (some s) n = s == n

-- `status in ACTIVE`.
unfoldable pub is_active : Run → Bool
is_active run =
    run.status =ᵗ "queued"
    || run.status =ᵗ "in_progress"
    || run.status =ᵗ "waiting"
    || run.status =ᵗ "pending"
    || run.status =ᵗ "requested"

-- `body["workflow_runs"]`.
abbrev pub runs_of : Body → Result (List Run)
runs_of (workflow_runs runs) = ok runs
runs_of _ = err (key_error "workflow_runs")

abbrev pub answers_of : Body → List Answer
answers_of (dns_answers answers) = answers
answers_of _ = []

-- The addresses in an answer: its records of type A.
unfoldable pub addresses : List Answer → List String
addresses [] = []
addresses (a ∷ answers) =
    let rest = addresses answers in if a.kind == 1 then a.address ∷ rest else rest

abbrev pub configs_of : Body → List Config
configs_of (check_configs configs) = configs
configs_of _ = []

-- The conditions on the lists of runs, oldest checks first: see `require_no_recovery`.
unfoldable pub is_bot : Option String → Bool
is_bot actor = is_text actor "github-actions[bot]"

unfoldable pub returned_after : Run → List Run → Bool
returned_after newest returns =
    any (λ run. is_text run.conclusion "success" && not (leb_text run.created_at newest.created_at))
      returns

-- The newest run is an automatic start that did not succeed, and no return passed after it.
unfoldable pub blocks : List Run → List Run → Bool
unfolding is_bot returned_after
blocks [] returns = false
blocks (newest ∷ runs) returns =
    is_bot newest.actor
    && not (is_text newest.conclusion "success")
    && not (returned_after newest returns)

module _ {W : Type 0} (sys : System W) (public_host primary_host : String) where
  abbrev get : String → Exec W Response
  get url w = let (r, w') = sys.get url w in (ok r, w')

  abbrev now : Exec W ℕ
  now w = let (t, w') = sys.now w in (ok t, w')

  unfoldable pub api_url : String → Result String
  unfolding env_require
  api_url path =
      let api = or_text (env_get "GITHUB_API_URL" sys.environ) "https://api.github.com" in
      elim (env_require "GITHUB_REPOSITORY" sys.environ) [
        | ok repository ↦ ok (api <> "/repos/" <> repository <> "/" <> path)
        | err e ↦ err e
      ]

  unfoldable pub github : String → Exec W Body
  unfolding api_url ◌>>=◌
  github path = do
    url ← lift (api_url path)
    token ← lift (env_require "GITHUB_TOKEN" sys.environ)
    response ← get url
    if is_status response.status 200
        then pure response.body
        else raise (no_start ("GitHub API " <> path <> " returned another status"))

  unfoldable pub resolve : String → Exec W (List String)
  unfolding ◌>>=◌ sorted_texts addresses
  resolve host = do
    response ← get ("https://cloudflare-dns.com/dns-query?name=" <> host <> "&type=A")
    if is_status response.status 200
        then pure (sorted_texts (addresses (answers_of response.body)))
        else raise (no_start ("resolving " <> host <> " returned another status"))

  -- Condition 4.
  unfoldable pub require_switch : Exec W Done
  unfolding env_get
  require_switch =
      raise_if (not (is_text (env_get "AUTO_FAILOVER" sys.environ) "true"))
        (no_start "the AUTO_FAILOVER variable is not true")

  -- Condition 2, for one host.
  unfoldable pub require_no_answer : String → Exec W Done
  unfolding ◌>>=◌
  require_no_answer host = do
    response ← get ("https://" <> host <> "/api/healthz")
    raise_if (is_status response.status 200)
        (no_start ("https://" <> host <> "/api/healthz returned 200"))

  unfoldable pub require_unreachable : Exec W Done
  unfolding require_no_answer
  require_unreachable = do require_no_answer public_host; require_no_answer primary_host

  -- Condition 3, the name.
  unfoldable pub require_public_name_on_primary : Exec W Done
  unfolding resolve same_texts
  require_public_name_on_primary = do
    public ← resolve public_host
    primary ← resolve primary_host
    raise_if (same_texts public [] || not (same_texts public primary))
        (no_start (public_host <> " does not resolve to the address of " <> primary_host))

  -- Condition 3, the runs.
  unfoldable pub require_no_recovery : Exec W Done
  unfolding github blocks is_active
  require_no_recovery = do
    recoveries ← github "actions/workflows/recover.yml/runs?per_page=20"
    runs ← lift (runs_of recoveries)
    raise_if (any is_active runs) (no_start "a recovery run is active")
    answer ← github "actions/workflows/return.yml/runs?per_page=20"
    returns ← lift (runs_of answer)
    raise_if (blocks runs returns) (no_start "the automatic recovery run did not succeed")
    raise_if (any is_active returns) (no_start "a return run is active")

  abbrev single : List Config → Result Config
  single (config ∷ []) = ok config
  single _ = err (no_start "found another number of uptime checks, expected 1")

  abbrev series_of : Body → Exec W (List Series)
  series_of (time_series next_page series) =
      if next_page
      then raise (no_start "the uptime results span more than one page")
      else pure series
  series_of _ = pure []

  -- The first half of `uptime_series`: the base of the URLs, and the one check of the public name.
  unfoldable pub uptime_check : Exec W (String × String)
  unfolding env_require ◌>>=◌
  uptime_check = do
    project ← lift (env_require "GCP_PROJECT_ID" sys.environ)
    token ← sys.access_token
    let base = "https://monitoring.googleapis.com/v3/projects/" <> project
    response ← get (base <> "/uptimeCheckConfigs")
    raise_if (not (is_status response.status 200)) (no_start "listing the uptime checks failed")
    config ← lift (single (keep (λ c. is_text c.host public_host) (configs_of response.body)))
    pure (base, last_part 47 config.name)

  -- `uptime_series`: one series for each checker of the one check of the public name.
  unfoldable pub uptime_series : ℕ → ℕ → Exec W (List Series)
  unfolding uptime_check ◌>>=◌
  uptime_series start end = do
    checked ← uptime_check
    results ←
        get (checked.0 <> "/timeSeries?" <> checked.1 <> "&" <> stamp start <> "&" <> stamp end)
    raise_if (not (is_status results.status 200)) (no_start "reading the uptime results failed")
    series_of results.body

  -- Condition 1.
  unfoldable pub require_every_checker_failed : Exec W Done
  unfolding uptime_series
  require_every_checker_failed = do
    end ← now
    series ← uptime_series (end - (window + lag)) end
    lift (every_checker_failed end series)

  unfoldable pub local : Exec W Done
  unfolding require_switch require_unreachable require_public_name_on_primary require_no_recovery
  local = do
    require_switch
    require_unreachable
    require_public_name_on_primary
    require_no_recovery

-- What a run of the script prints and does: `candidate=…` of the local job, or the end of confirm.
pub data Outcome : Type 0 where
  candidate : Bool → Outcome
  no_start_confirmed held started : Outcome

pub data Command : Type 0 where
  local_job : Command
  confirm : Bool → Command

module _ {W : Type 0} (sys : System W) (public_host primary_host : String) where
  unfoldable pub start : Exec W Outcome
  unfolding api_url ◌>>=◌
  start = do
    url ← lift (api_url sys public_host primary_host "actions/workflows/recover.yml/dispatches")
    token ← lift (env_require "GITHUB_TOKEN" sys.environ)
    response ← λ w. let (r, w') = sys.post url w in (ok r, w')
    if is_status response.status 204
        then pure started
        else raise (runtime_error "dispatching recover.yml returned another status")

  -- The block under `try` in `main`.
  unfoldable pub conditions : Command → Exec W Done
  unfolding local require_every_checker_failed
  conditions local_job = local sys public_host primary_host
  conditions (confirm _) = do
    local sys public_host primary_host
    require_every_checker_failed sys public_host primary_host

  -- The handler of NoStart; another exception goes on.
  abbrev pub not_started : Command → Error → Exec W Outcome
  not_started local_job (no_start m) = pure (candidate false)
  not_started (confirm _) (no_start m) = pure no_start_confirmed
  not_started command e = raise e

  abbrev pub decided : Command → Exec W Outcome
  decided local_job = pure (candidate true)
  decided (confirm true) = start
  decided (confirm false) = pure held

  abbrev pub after_conditions : Command → Result Done → Exec W Outcome
  after_conditions command (ok _) = decided command
  after_conditions command (err e) = not_started command e

  unfoldable pub main : Command → Exec W Outcome
  unfolding conditions start
  main command w = let (r, w') = conditions command w in after_conditions command r w'
