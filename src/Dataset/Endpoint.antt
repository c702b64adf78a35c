-- ===== src/Dataset/Endpoint.antt =====
-- scripts/dataset.py: the fixture user's view of an endpoint, and the commands load and check.
use k8s_dr.Prelude.{
  ℕ, ◌+◌, ◌-◌, String, Bool, not, ◌&&◌, code, Option, none, some, List, [], ◌∷◌, any, Error, failed,
  value_error, runtime_error, Result, Done, ok, err, Exec, pure, raise, raise_if, lift, catching,
  for_each, ◌>>=◌, ◌>>◌, last?, ◌==◌, if◌then◌else◌,
}
use k8s_dr.Text.{◌=ᵗ◌, ◌<>◌, empty, strip, words, same_texts}
use k8s_dr.Text.Decimal.{show}
use k8s_dr.Inventory.Networks.{all_digits, number_from}
use k8s_dr.Dataset.{
  Library, numbers, repository_names, part_name, commit_message, commit_date, part_bytes,
  expected_commits,
}

pub record Response : Type 0 where
  pub status : ℕ
  pub headers : List (String × String)

-- The class `Gitea`, and the commands of the local repository. A request without an answer, or a command of git that
-- fails, raises.
pub record Gitea (W : Type 0) : Type 0 where
  pub url : String
  pub user : String
  pub api : String → String → W → Result Response × W
  pub git : List String → W → Result String × W
  pub local_git : List (String × String) → List String → W → Result String × W
  pub write_part : String → List (List ℕ) → W → Result Done × W
  pub lower : String → String

-- The fixtures that both commands read.
pub record Fixtures : Type 0 where
  pub author : String
  pub branch : String

unfoldable pub header : (String → String) → String → List (String × String) → Option String
header lower name [] = none
header lower name ((k, v) ∷ rest) =
    let later = header lower name rest in
    elim later [ some found ↦ some found | none ↦ if lower k =ᵗ name then some v else none ]

-- `int` of a text of digits.
abbrev pub count_of : Option String → Result ℕ
count_of none = err (failed "the issue listing has no X-Total-Count header")
count_of (some t) =
    if all_digits (strip t)
    then ok (number_from 0 (strip t))
    else err (value_error "invalid literal for int()")

abbrev pub first_word : List String → String
first_word [] = ""
first_word (w ∷ ws) = w

-- `expected[-1]`.
abbrev pub last_of : List String → Result String
last_of shas = elim (last? shas) [
  | some sha ↦ ok sha
  | none ↦ err (runtime_error "list index out of range")
]

-- The commits behind a head that is one of them.
unfoldable pub commits_after : String → List String → List String
commits_after head [] = []
commits_after head (sha ∷ shas) =
    let rest = commits_after head shas in if sha =ᵗ head then shas else rest

abbrev pub pending_commits : String → List String → List String
pending_commits head shas = if empty head then shas else commits_after head shas

abbrev pub is_commit : String → List String → Bool
is_commit head shas = any (λ sha. sha =ᵗ head) shas

-- `identity.removesuffix(">")`.
unfoldable pub without_bracket : String → String
without_bracket String.[] = String.[]
without_bracket (String.◌∷◌ c String.[]) = if code c == 62 then "" else String.◌∷◌ c String.[]
without_bracket (String.◌∷◌ c (String.◌∷◌ d s)) =
    let rest = without_bracket (String.◌∷◌ d s) in String.◌∷◌ c rest

-- `split(" <")`; `part` is what is read of the one at hand.
unfoldable pub split_bracket : String → String → List String
split_bracket part String.[] = part ∷ []
split_bracket part (String.◌∷◌ c String.[]) = (part <> String.◌∷◌ c String.[]) ∷ []
split_bracket part (String.◌∷◌ c (String.◌∷◌ d s)) =
    let closed = split_bracket "" s in
    let open_one = split_bracket (part <> String.◌∷◌ c String.[]) (String.◌∷◌ d s) in
    if code c == 32 && code d == 60 then part ∷ closed else open_one

abbrev two_parts : List String → Result (String × String)
two_parts (name ∷ email ∷ []) = ok (name, email)
two_parts _ = err (value_error "the identity is no name with one address")

-- The name and the address of an identity.
unfoldable pub person_of : String → Result (String × String)
person_of identity = two_parts (split_bracket "" (without_bracket identity))

-- What `build_repository` adds to the environment of git.
abbrev pub commit_environ : String → String → List (String × String)
commit_environ name email =
    let date = show commit_date <> " +0000" in
    ("GIT_CONFIG_GLOBAL", "/dev/null")
    ∷ ("GIT_CONFIG_NOSYSTEM", "1")
    ∷ ("GIT_AUTHOR_NAME", name)
    ∷ ("GIT_AUTHOR_EMAIL", email)
    ∷ ("GIT_AUTHOR_DATE", date)
    ∷ ("GIT_COMMITTER_NAME", name)
    ∷ ("GIT_COMMITTER_EMAIL", email)
    ∷ ("GIT_COMMITTER_DATE", date)
    ∷ []

module _ {W G : Type 0} (lib : Library G) (gitea : Gitea W) where
  unfoldable pub api : String → String → Exec W Response
  api method path w = gitea.api method path w

  unfoldable pub git : List String → Exec W String
  git arguments w = gitea.git arguments w

  -- `git` of `build_repository`, with what it adds to the environment.
  unfoldable pub local_git : List (String × String) → List String → Exec W String
  local_git environ arguments w = gitea.local_git environ arguments w

  unfoldable pub write_part : String → List (List ℕ) → Exec W Done
  write_part name chunks w = gitea.write_part name chunks w

  abbrev pub clone_url : String → String
  clone_url repository = gitea.url <> "/" <> gitea.user <> "/" <> repository <> ".git"

  -- `head`: empty when the repository has no such branch.
  unfoldable pub head : String → String → Exec W String
  head repository branch = do
    listing ← git ("ls-remote" ∷ clone_url repository ∷ ("refs/heads/" <> branch) ∷ [])
    pure (if empty (strip listing) then "" else first_word (words listing))

  -- `issue_count`.
  unfoldable pub issue_count : String → Exec W ℕ
  issue_count repository = do
    response ←
        api "GET"
          ("/repos/" <> gitea.user <> "/" <> repository <> "/issues?state=all&type=issues&limit=1")
    raise_if (not (response.status == 200))
        (failed ("listing the issues of " <> repository <> " returned another status"))
    lift (count_of (header gitea.lower "x-total-count" response.headers))

  -- One round of `build_repository`.
  unfoldable pub build_part : List (String × String) → String → ℕ → ℕ → ℕ → Exec W String
  build_part environ repository commits size number = do
    write_part (part_name number) (part_bytes lib repository number size)
    local_git environ ("add" ∷ part_name number ∷ [])
    local_git environ ("commit" ∷ "--quiet" ∷ "--message" ∷ commit_message number commits ∷ [])
    text ← local_git environ ("rev-parse" ∷ "HEAD" ∷ [])
    pure (strip text)

  unfoldable pub build_parts :
      List (String × String) → String → ℕ → ℕ → List ℕ → Exec W (List String)
  build_parts environ repository commits size [] = pure []
  build_parts environ repository commits size (number ∷ later) = do
    sha ← build_part environ repository commits size number
    shas ← build_parts environ repository commits size later
    pure (sha ∷ shas)

  -- `build_repository`.
  unfoldable pub build_repository : String → String → String → ℕ → ℕ → Exec W (List String)
  build_repository repository identity branch commits size = do
    person ← lift (person_of identity)
    let environ = commit_environ person.0 person.1
    local_git environ ("init" ∷ "--quiet" ∷ "--initial-branch" ∷ branch ∷ [])
    build_parts environ repository commits size (numbers 1 commits)

  unfoldable pub create : String → Exec W Done
  create repository = do
    response ← api "POST" "/user/repos"
    raise_if (not (response.status == 201))
        (failed ("creating " <> repository <> " returned another status"))

  -- A missing repository is created.
  unfoldable pub require_repository : String → Exec W Done
  require_repository repository = do
    response ← api "GET" ("/repos/" <> gitea.user <> "/" <> repository)
    if response.status == 404
        then create repository
        else raise_if (not (response.status == 200))
            (failed ("reading " <> repository <> " returned another status"))

  unfoldable pub push_commit : String → String → String → Exec W Done
  push_commit repository branch sha = do
    git ("push" ∷ "--quiet" ∷ clone_url repository ∷ (sha <> ":refs/heads/" <> branch) ∷ [])
    pure tt

  -- Each push sends one part, oldest first.
  unfoldable pub push_commits : String → String → List String → Exec W Done
  push_commits repository branch [] = pure tt
  push_commits repository branch (sha ∷ shas) = do
    push_commit repository branch sha
    push_commits repository branch shas

  -- The commits that the endpoint lacks.
  unfoldable pub complete : String → String → String → ℕ → ℕ → List String → String → Exec W Done
  complete repository identity branch commits size expected found = do
    raise_if (not (empty found) && not (is_commit found expected))
        (failed (repository <> " is at no dataset commit"))
    built ← build_repository repository identity branch commits size
    raise_if (not (same_texts built expected))
        (failed (repository <> ": the local commits do not match the computed SHAs"))
    push_commits repository branch (pending_commits found built)

  -- One round of the loop of `load`.
  unfoldable pub load_repository : Fixtures → ℕ → ℕ → String → Exec W Done
  load_repository fixtures commits size repository = do
    let expected = expected_commits lib repository fixtures.author commits size
    require_repository repository
    found ← head repository fixtures.branch
    newest ← lift (last_of expected)
    if found =ᵗ newest
        then pure tt
        else complete repository fixtures.author fixtures.branch commits size expected found

  unfoldable pub create_issue : String → ℕ → Exec W Done
  create_issue repository number = do
    response ← api "POST" ("/repos/" <> gitea.user <> "/" <> repository <> "/issues")
    raise_if (not (response.status == 201))
        (failed ("creating issue " <> show number <> " returned another status"))

  abbrev pub first_repository : List String → Result String
  first_repository [] = err (runtime_error "list index out of range")
  first_repository (r ∷ rs) = ok r

  -- `load`.
  unfoldable pub load : Fixtures → List String → ℕ → ℕ → ℕ → Exec W Done
  load fixtures repositories commits size issues = do
    for_each (load_repository fixtures commits size) repositories
    first ← lift (first_repository repositories)
    count ← issue_count first
    for_each (create_issue first) (numbers (count + 1) (issues - count))

  -- One round of the loop of `check`: whether the repository is a problem.
  unfoldable pub is_behind : Fixtures → ℕ → ℕ → String → Exec W Bool
  is_behind fixtures commits size repository = do
    newest ← lift (last_of (expected_commits lib repository fixtures.author commits size))
    found ← head repository fixtures.branch
    pure (not (found =ᵗ newest))

  unfoldable pub count_problems : Fixtures → ℕ → ℕ → List String → Exec W ℕ
  count_problems fixtures commits size [] = pure 0
  count_problems fixtures commits size (r ∷ rs) = do
    behind ← is_behind fixtures commits size r
    problems ← count_problems fixtures commits size rs
    pure (if behind then problems + 1 else problems)

  -- `check`.
  unfoldable pub check : Fixtures → List String → ℕ → ℕ → ℕ → Exec W Done
  check fixtures repositories commits size issues = do
    problems ← count_problems fixtures commits size repositories
    first ← lift (first_repository repositories)
    count ← issue_count first
    raise_if (not (problems == 0 && count == issues))
        (failed "the endpoint does not hold the dataset")

  -- `except Failed`.
  unfoldable pub failed_status : Error → Exec W ℕ
  failed_status (failed reason) = pure 1
  failed_status e = raise e

  unfoldable pub command : Bool → Fixtures → List String → ℕ → ℕ → ℕ → Exec W ℕ
  command loading fixtures repositories commits size issues = do
    if loading
        then load fixtures repositories commits size issues
        else check fixtures repositories commits size issues
    pure 0

  -- `main`, with the fixtures and the endpoint.
  unfoldable pub main : Bool → Fixtures → ℕ → ℕ → ℕ → ℕ → Exec W ℕ
  main loading fixtures count commits size issues =
      catching (command loading fixtures (repository_names count) commits size issues) failed_status
