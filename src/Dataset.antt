-- ===== src/Dataset.antt =====
-- scripts/dataset.py: the parts of the dataset and the SHAs of its commits, over the random generator and the hash of
-- Python, and over the encoding of a text as bytes.
pub mod Endpoint
pub mod Chunks
pub mod Loads
pub mod Contract
use k8s_dr.Prelude.{
  ℕ, zero, suc, ◌+◌, ◌-◌, ◌/◌, ◌%◌, String, Bool, true, false, Option, none, some, List, [], ◌∷◌,
  ◌++◌, length, leb, ltb, if◌then◌else◌, map,
}
use k8s_dr.Text.{◌<>◌, join}
use k8s_dr.Text.Decimal.{show, show_two}

-- REPOSITORIES, COMMITS, PART_SIZE, ISSUES, CHUNK and DATE.
abbrev pub repositories_default : ℕ
repositories_default = 8

abbrev pub commits_default : ℕ
commits_default = 16

abbrev pub part_size : ℕ
part_size = 16777216

abbrev pub issues_default : ℕ
issues_default = 200

abbrev pub chunk_size : ℕ
chunk_size = 4194304

abbrev pub commit_date : ℕ
commit_date = 1760745600

-- The numbers from `first` on.
unfoldable pub numbers : ℕ → ℕ → List ℕ
numbers first zero = []
numbers first (suc n) = first ∷ numbers (first + 1) n

abbrev repository_name : ℕ → String
repository_name number = "dataset-" <> show_two number

-- `repository_names`.
unfoldable pub repository_names : ℕ → List String
repository_names count = map repository_name (numbers 1 count)

unfoldable pub part_name : ℕ → String
part_name number = "part-" <> show_two number <> ".bin"

unfoldable pub commit_message : ℕ → ℕ → String
commit_message number commits = "Add dataset part " <> show number <> " of " <> show commits

unfoldable pub smaller : ℕ → ℕ → ℕ
smaller a b = if leb a b then a else b

-- The sizes of the chunks, `while left`.
unfoldable pub chunk_sizes : ℕ → ℕ → List ℕ
chunk_sizes zero left = []
chunk_sizes (suc fuel) zero = []
chunk_sizes (suc fuel) (suc left) =
    smaller chunk_size (suc left) ∷ chunk_sizes fuel (suc left - smaller chunk_size (suc left))

unfoldable pub char_at : ℕ → String → String
char_at n String.[] = ""
char_at zero (String.◌∷◌ c s) = String.◌∷◌ c String.[]
char_at (suc n) (String.◌∷◌ c s) = char_at n s

abbrev digit_of : ℕ → String
digit_of n = char_at n "0123456789abcdef"

-- `hexdigest`.
unfoldable pub hex : List ℕ → String
hex [] = ""
hex (b ∷ bs) = digit_of (b / 16) <> digit_of (b % 16) <> hex bs

-- `random.Random`, `hashlib.sha1` and `str.encode`.
pub record Library (G : Type 0) : Type 0 where
  pub seed : String → G
  pub randbytes : ℕ → G → List ℕ × G
  pub choice : List String → G → String × G
  pub sha1 : List ℕ → List ℕ
  pub encode : String → List ℕ

module _ {G : Type 0} (lib : Library G) where
  unfoldable pub chunks_of : List ℕ → G → List (List ℕ)
  chunks_of [] g = []
  chunks_of (n ∷ ns) g = let drawn = lib.randbytes n g in drawn.0 ∷ chunks_of ns drawn.1

  -- `part_bytes`.
  unfoldable pub part_bytes : String → ℕ → ℕ → List (List ℕ)
  part_bytes repository number size =
      chunks_of (chunk_sizes (suc size) size) (lib.seed (repository <> "/" <> part_name number))

  unfoldable pub joined : List (List ℕ) → List ℕ
  joined [] = []
  joined (c ∷ cs) = c ++ joined cs

  -- `git_object`.
  unfoldable pub git_object : String → List ℕ → String
  git_object kind body = hex (lib.sha1 (lib.encode (kind <> " " <> show (length body)) ++ 0 ∷ body))

  -- `blob_sha`, as the bytes that its text stands for.
  unfoldable pub blob_sha : String → ℕ → ℕ → List ℕ
  blob_sha repository number size =
      lib.sha1 (lib.encode ("blob " <> show size) ++ 0 ∷ joined (part_bytes repository number size))

  abbrev parent_lines : Option String → List String
  parent_lines none = []
  parent_lines (some parent) = ("parent " <> parent) ∷ []

  abbrev commit_lines : String → Option String → String → String → List String
  commit_lines tree parent identity message =
      ("tree " <> tree) ∷ parent_lines parent
      ++ ("author " <> identity <> " " <> show commit_date <> " +0000")
        ∷ ("committer " <> identity <> " " <> show commit_date <> " +0000")
        ∷ ""
        ∷ message
        ∷ ""
        ∷ []

  -- The loop of `expected_commits`, with the entries and the parent so far.
  unfoldable pub expected_from :
      String → String → ℕ → ℕ → List ℕ → List ℕ → Option String → List String
  expected_from repository identity commits size [] entries parent = []
  expected_from repository identity commits size (number ∷ later) entries parent =
      let more =
        entries
        ++ lib.encode ("100644 " <> part_name number)
        ++ 0 ∷ blob_sha repository number size in
      let commit = git_object "commit" (
        lib.encode (
          join "\n" (
            commit_lines (git_object "tree" more) parent identity
              (commit_message number commits)))) in
      commit ∷ expected_from repository identity commits size later more (some commit)

  -- `expected_commits`.
  unfoldable pub expected_commits : String → String → ℕ → ℕ → List String
  expected_commits repository identity commits size =
      expected_from repository identity commits size (numbers 1 commits) [] none

  unfoldable pub drawn_words : ℕ → G → List String
  drawn_words zero g = []
  drawn_words (suc n) g =
      let drawn =
        lib.choice
          ("backup" ∷ "restore" ∷ "region" ∷ "drill" ∷ "commit" ∷ "volume" ∷ "snapshot" ∷ "cluster"
            ∷ [])
          g in
      drawn.0 ∷ drawn_words n drawn.1

  -- `issue_body`.
  unfoldable pub issue_body : ℕ → String
  issue_body number = join " " (drawn_words 150 (lib.seed ("dataset-issue/" <> show number)))
