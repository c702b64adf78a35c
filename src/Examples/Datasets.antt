-- ===== src/Examples/Datasets.antt =====
-- A dataset of one commit in one repository, on an endpoint that holds a head for each repository.
use k8s_dr.Prelude.{
  ℕ, zero, suc, ◌+◌, ◌-◌, ◌≤◌, ◌<◌, ◌≡◌, refl, sym, ◌∙◌, ap, subst, String, Bool, true, false, List,
  [], ◌∷◌, Result, ok, err, failed, All, Bool-cases, inl, inr, arith, if◌then◌else◌, ◌==◌, ==_iff,
}
use text.Mathlib.TextEquality.{eq_iff}
use k8s_dr.Text.{◌=ᵗ◌, ◌<>◌, empty, strip, words}
use k8s_dr.Dataset.{Library, expected_commits, chunk_size, chunk_sizes}
use k8s_dr.Dataset.Chunks.{total, chunk_sizes-total}
use k8s_dr.Dataset.Endpoint.{Gitea, Fixtures, first_word, last_of, load, check}
use k8s_dr.Dataset.Loads.{EndpointLaws}
use k8s_dr.Dataset.Contract.{load-Complete, check-Complete}

chunk_sizes-total_example :
    (total (chunk_sizes 10000001 10000000) ≡ 10000000)
    × All (λ n. (0 < n) × (n ≤ chunk_size)) (chunk_sizes 10000001 10000000)
chunk_sizes-total_example = chunk_sizes-total 10000001 10000000 (omega arith)

-- Every object has the same SHA.
abbrev one_hash : Library ℕ
one_hash = record {
  seed = λ text. 0;
  randbytes = λ n g. ([], g);
  choice = λ texts g. ("", g);
  sha1 = λ bytes. 171 ∷ [];
  encode = λ text. [];
}

abbrev size_of : String → ℕ
size_of String.[] = 0
size_of (String.◌∷◌ c s) = suc (size_of s)

-- A text without its last characters.
abbrev before : ℕ → String → String
before n String.[] = ""
before n (String.◌∷◌ c s) =
    let rest = before n s in if suc (size_of s) == n then "" else String.◌∷◌ c rest

size_of-<> : (s t : String) → size_of (s <> t) ≡ size_of s + size_of t
unfolding ◌<>◌
size_of-<> String.[] t = omega arith
size_of-<> (String.◌∷◌ c s) t = omega (arith, size_of-<> s t)

before-<> : (s : String) (d : String) → 0 < size_of d → before (size_of d) (s <> d) ≡ s
unfolding ◌<>◌
before-<> String.[] String.[] h = absurd (omega arith)
before-<> String.[] (String.◌∷◌ c s) h =
    let k = (==_iff (suc (size_of s)) (suc (size_of s))).1 refl in rw k refl
before-<> (String.◌∷◌ c s) d h =
    let sizes = size_of-<> s d in
    elim (Bool-cases (suc (size_of (s <> d)) == size_of d)) [
      | inl e ↦ absurd (let q = (==_iff (suc (size_of (s <> d))) (size_of d)).0 e in omega arith)
      | inr e ↦ rw (e, before-<> s d h) refl
    ]

abbrev without_two : String → String
without_two (String.◌∷◌ a (String.◌∷◌ b s)) = s
without_two s = s

abbrev repository_of : String → String
repository_of url = before 4 (without_two url)

abbrev Heads : Type 0
Heads = String → String

abbrev parsed : String → String
parsed text = if empty (strip text) then "" else first_word (words text)

abbrev moved : String → String → Heads → Heads
moved repository sha heads r = if repository =ᵗ r then sha else heads r

-- A push of a text that is no single word is refused.
abbrev pushed : String → String → Heads → Result String × Heads
pushed repository sha heads =
    if parsed sha =ᵗ sha
    then (ok "", moved repository sha heads)
    else (err (failed "bad refspec"), heads)

abbrev git_of : List String → Heads → Result String × Heads
git_of (command ∷ url ∷ ref ∷ []) heads = (ok (heads (repository_of url)), heads)
git_of (command ∷ quiet ∷ url ∷ ref ∷ []) heads = pushed (repository_of url) (before 16 ref) heads
git_of _ heads = (ok "", heads)

abbrev endpoint : Gitea Heads
endpoint = record {
  url = "";
  user = "";
  api = λ method path heads.
      (ok (record { status = 200; headers = ("x-total-count", "2") ∷ [] }), heads);
  git = git_of;
  local_git = λ environ arguments heads. (ok "ab", heads);
  write_part = λ name chunks heads. (ok tt, heads);
  lower = λ text. text;
}

abbrev fixtures : Fixtures
fixtures = record { author = "a <a@example.org>"; branch = "main" }

abbrev head_in : String → Heads → String
head_in r heads = parsed (heads r)

repository_of-url : (r : String) → repository_of ("" <> "/" <> "" <> "/" <> r <> ".git") ≡ r
unfolding ◌<>◌
repository_of-url r = before-<> r ".git" (omega arith)

ref_sha : (sha : String) → before 16 (sha <> ":refs/heads/" <> "main") ≡ sha
unfolding ◌<>◌
ref_sha sha = before-<> sha ":refs/heads/main" (omega arith)

abbrev result_of_push : String → String → Heads → Result String × Heads
result_of_push r sha heads =
    git_of
      ("push"
        ∷ "--quiet"
        ∷ ("" <> "/" <> "" <> "/" <> r <> ".git")
        ∷ (sha <> ":refs/heads/" <> "main")
        ∷ [])
      heads

push_is : (r sha : String) (heads : Heads) → result_of_push r sha heads ≡ pushed r sha heads
push_is r sha heads =
    ap (λ x. pushed x (before 16 (sha <> ":refs/heads/" <> "main")) heads) (repository_of-url r)
    ∙ ap (λ y. pushed r y heads) (ref_sha sha)

pushed-moves :
    (r sha text : String) (heads : Heads)
    → (pushed r sha heads).0 ≡ ok text
    → parsed ((pushed r sha heads).1 r) ≡ sha
pushed-moves r sha text heads e = elim (Bool-cases (parsed sha =ᵗ sha)) [
  | inl w ↦ rw (w, (eq_iff r r).1 refl) ((eq_iff (parsed sha) sha).0 w)
  | inr w ↦ absurd (ground arith)
]

pushed-keeps :
    (r other sha : String) (heads : Heads)
    → (other =ᵗ r) ≡ false
    → parsed ((pushed other sha heads).1 r) ≡ parsed (heads r)
pushed-keeps r other sha heads e = elim (Bool-cases (parsed sha =ᵗ sha)) [
  | inl w ↦ rw (w, e) refl
  | inr w ↦ rw w refl
]

endpoint_laws : EndpointLaws endpoint "main" head_in
endpoint_laws = record {
  api_keeps = λ r method path w. refl;
  local_keeps = λ r environ arguments w. refl;
  write_keeps = λ r name chunks w. refl;
  listing_keeps = λ r url ref w. refl;
  listing_is = λ r text w e.
      let q : w (repository_of ("" <> "/" <> "" <> "/" <> r <> ".git")) ≡ text = ground arith in
      ap parsed (sym q ∙ ap w (repository_of-url r));
  push_moves = λ r sha text w e.
      subst (λ p. p.0 ≡ ok text → parsed (p.1 r) ≡ sha) (sym (push_is r sha w))
        (pushed-moves r sha text w) e;
  push_keeps = λ r other sha w e.
      subst (λ p. parsed (p.1 r) ≡ parsed (w r)) (sym (push_is other sha w))
        (pushed-keeps r other sha w e);
}

-- An endpoint whose repository is empty.
abbrev empty_heads : Heads
empty_heads r = ""

loads : (load one_hash endpoint fixtures ("dataset-01" ∷ []) 1 0 2 empty_heads).0 ≡ ok tt
unfolding k8s_dr.Dataset.numbers k8s_dr.Dataset.char_at k8s_dr.Dataset.hex k8s_dr.Dataset.git_object
    k8s_dr.Dataset.expected_from k8s_dr.Dataset.expected_commits k8s_dr.Dataset.Endpoint.header
    k8s_dr.Dataset.Endpoint.api k8s_dr.Dataset.Endpoint.git k8s_dr.Dataset.Endpoint.local_git
    k8s_dr.Dataset.Endpoint.write_part k8s_dr.Dataset.Endpoint.head
    k8s_dr.Dataset.Endpoint.issue_count k8s_dr.Dataset.Endpoint.build_part
    k8s_dr.Dataset.Endpoint.person_of k8s_dr.Dataset.Endpoint.without_bracket
    k8s_dr.Dataset.Endpoint.split_bracket k8s_dr.Dataset.Endpoint.build_parts
    k8s_dr.Dataset.Endpoint.build_repository k8s_dr.Dataset.Endpoint.require_repository
    k8s_dr.Dataset.Endpoint.push_commit k8s_dr.Dataset.Endpoint.push_commits
    k8s_dr.Dataset.Endpoint.complete k8s_dr.Dataset.Endpoint.load_repository
    k8s_dr.Dataset.Endpoint.load k8s_dr.Text.join k8s_dr.Text.words_from k8s_dr.Text.drop_end
    k8s_dr.Text.drop_start k8s_dr.Text.is_space k8s_dr.Text.is_digit k8s_dr.Text.contains_char
    k8s_dr.Text.same_texts k8s_dr.Inventory.Networks.number_from k8s_dr.Prelude.◌>>=◌
    k8s_dr.Prelude.for_each
loads = refl

-- One that holds the commit.
abbrev full_heads : Heads
full_heads r = "ab"

checks : (check one_hash endpoint fixtures ("dataset-01" ∷ []) 1 0 2 full_heads).0 ≡ ok tt
unfolding k8s_dr.Dataset.numbers k8s_dr.Dataset.char_at k8s_dr.Dataset.hex k8s_dr.Dataset.git_object
    k8s_dr.Dataset.expected_from k8s_dr.Dataset.expected_commits k8s_dr.Dataset.Endpoint.header
    k8s_dr.Dataset.Endpoint.api k8s_dr.Dataset.Endpoint.git k8s_dr.Dataset.Endpoint.head
    k8s_dr.Dataset.Endpoint.issue_count k8s_dr.Dataset.Endpoint.is_behind
    k8s_dr.Dataset.Endpoint.count_problems k8s_dr.Dataset.Endpoint.check k8s_dr.Text.join
    k8s_dr.Text.words_from k8s_dr.Text.drop_end k8s_dr.Text.drop_start k8s_dr.Text.is_space
    k8s_dr.Text.is_digit k8s_dr.Text.contains_char k8s_dr.Inventory.Networks.number_from
    k8s_dr.Prelude.◌>>=◌
checks = refl

load-Complete_example :
    All
      (λ r.
        last_of (expected_commits one_hash r fixtures.author 1 0)
        ≡ ok (head_in r (load one_hash endpoint fixtures ("dataset-01" ∷ []) 1 0 2 empty_heads).1))
      ("dataset-01" ∷ [])
load-Complete_example =
    load-Complete one_hash endpoint fixtures 1 0 head_in endpoint_laws ("dataset-01" ∷ []) 2
      empty_heads loads

check-Complete_example :
    All
      (λ r.
        last_of (expected_commits one_hash r fixtures.author 1 0)
        ≡ ok (head_in r (check one_hash endpoint fixtures ("dataset-01" ∷ []) 1 0 2 full_heads).1))
      ("dataset-01" ∷ [])
check-Complete_example =
    check-Complete one_hash endpoint fixtures 1 0 head_in endpoint_laws ("dataset-01" ∷ []) 2
      full_heads checks
