-- ===== src/Dataset/Loads.antt =====
-- A load that returns has put every repository at its newest commit, and a check that returns has seen that.
use k8s_dr.Prelude.{
  ℕ, ◌≡◌, refl, sym, ◌∙◌, ap, subst, String, true, false, not, ◌&&◌, some, List, [], ◌∷◌, Result,
  ok, err, continue, All, pure, for_each, ◌>>=◌, last?, Bool-cases, Option-cases, inl, inr, arith,
  if◌then◌else◌,
}
use text.Mathlib.TextEquality.{eq_iff}
use k8s_dr.Prelude.Keeps.{
  Keeps, Keeps-pure, Keeps-bind, action_rules, OnOk, Triple, Triple-bind, Keeps-Triple, Triple-any,
  Triple-lift, Triple-raise_if, Triple-true, Triple-fact, Triple-both, Triple-weaken,
}
use k8s_dr.Text.{◌=ᵗ◌, ◌<>◌, empty, strip, words, same_texts}
use k8s_dr.Dataset.{Library, expected_commits}
use k8s_dr.Dataset.Endpoint.{
  Gitea, Fixtures, first_word, last_of, commits_after, pending_commits, is_commit, api, git,
  local_git, write_part, head, build_part, build_parts, build_repository, create,
  require_repository, push_commit, push_commits, complete, load_repository,
}

-- What the commands rely on: which head a repository has, `git ls-remote` prints it, a push that succeeds moves the
-- head of its repository alone, and nothing else moves a head.
pub record EndpointLaws {W : Type 0} (gitea : Gitea W) (branch : String)
    (head_of : String → W → String) : Type 0 where
  pub api_keeps :
      (r method path : String) (w : W) → head_of r (gitea.api method path w).1 ≡ head_of r w
  pub local_keeps :
      (r : String) (environ : List (String × String)) (arguments : List String) (w : W)
      → head_of r (gitea.local_git environ arguments w).1 ≡ head_of r w
  pub write_keeps :
      (r name : String) (chunks : List (List ℕ)) (w : W)
      → head_of r (gitea.write_part name chunks w).1 ≡ head_of r w
  pub listing_keeps :
      (r url ref : String) (w : W)
      → head_of r (gitea.git ("ls-remote" ∷ url ∷ ref ∷ []) w).1 ≡ head_of r w
  pub listing_is :
      (r text : String) (w : W)
      → (gitea.git
          ("ls-remote"
            ∷ (gitea.url <> "/" <> gitea.user <> "/" <> r <> ".git")
            ∷ ("refs/heads/" <> branch)
            ∷ [])
          w).0
        ≡ ok text
      → (if empty (strip text) then "" else first_word (words text)) ≡ head_of r w
  pub push_moves :
      (r sha text : String) (w : W)
      → (gitea.git
          ("push"
            ∷ "--quiet"
            ∷ (gitea.url <> "/" <> gitea.user <> "/" <> r <> ".git")
            ∷ (sha <> ":refs/heads/" <> branch)
            ∷ [])
          w).0
        ≡ ok text
      → head_of r
          (gitea.git
            ("push"
              ∷ "--quiet"
              ∷ (gitea.url <> "/" <> gitea.user <> "/" <> r <> ".git")
              ∷ (sha <> ":refs/heads/" <> branch)
              ∷ [])
            w).1
        ≡ sha
  pub push_keeps :
      (r other sha : String) (w : W)
      → (other =ᵗ r) ≡ false
      → head_of r
          (gitea.git
            ("push"
              ∷ "--quiet"
              ∷ (gitea.url <> "/" <> gitea.user <> "/" <> other <> ".git")
              ∷ (sha <> ":refs/heads/" <> branch)
              ∷ [])
            w).1
        ≡ head_of r w

-- The last of the commits behind a head that is an earlier one.
commits_after-last :
    (found newest : String) (shas : List String)
    → is_commit found shas ≡ true
    → last? shas ≡ some newest
    → (found =ᵗ newest) ≡ false
    → last? (commits_after found shas) ≡ some newest
unfolding commits_after
commits_after-last found newest [] c l n = absurd (ground arith)
commits_after-last found newest (x ∷ []) c l n =
    let q : x ≡ newest = ground arith in
    let f : x ≡ found = (eq_iff x found).0 (ground arith) in
    let same = (eq_iff found newest).1 (sym f ∙ q) in absurd (ground arith)
commits_after-last found newest (x ∷ y ∷ ys) c l n = elim (Bool-cases (x =ᵗ found)) [
  | inl e ↦ rw e l
  | inr e ↦ rw e (commits_after-last found newest (y ∷ ys) (ground arith) l n)
]

-- What is pushed ends with the newest commit.
pending-last :
    (found newest : String) (shas : List String)
    → (not (empty found) && not (is_commit found shas)) ≡ false
    → last? shas ≡ some newest
    → (found =ᵗ newest) ≡ false
    → last? (pending_commits found shas) ≡ some newest
pending-last found newest shas c l n = elim (Bool-cases (empty found)) [
  | inl e ↦ rw e l
  | inr e ↦ rw e (commits_after-last found newest shas (ground arith) l n)
]

last_of-some :
    (shas : List String) (newest : String) → last_of shas ≡ ok newest → last? shas ≡ some newest
last_of-some shas newest l = elim (Option-cases (last? shas)) [
  | inl e ↦ absurd (ground arith)
  | inr (sha, e) ↦ ground arith
]

same_texts-equal : (ts us : List String) → same_texts ts us ≡ true → ts ≡ us
unfolding same_texts
same_texts-equal [] [] h = refl
same_texts-equal [] (u ∷ us) h = absurd (ground arith)
same_texts-equal (t ∷ ts) [] h = absurd (ground arith)
same_texts-equal (t ∷ ts) (u ∷ us) h =
    let a : t ≡ u = (eq_iff t u).0 (ground arith) in
    let b = same_texts-equal ts us (ground arith) in cc

module _ {W G : Type 0} (lib : Library G) (gitea : Gitea W) (fixtures : Fixtures) (commits size : ℕ)
    (head_of : String → W → String) (laws : EndpointLaws gitea fixtures.branch head_of) where
  -- The repository stands at its newest commit.
  abbrev pub AtNewest : String → W → Type 0
  AtNewest r w = last_of (expected_commits lib r fixtures.author commits size) ≡ ok (head_of r w)

  abbrev pub At : String → String → W → Type 0
  At r sha w = head_of r w ≡ sha

  pub Keeps-api : (r sha method path : String) → Keeps (At r sha) (api lib gitea method path)
  unfolding api
  Keeps-api r sha method path = record { at = λ w h. laws.api_keeps r method path w ∙ h }

  Keeps-local_git :
      (r sha : String) (environ : List (String × String)) (arguments : List String)
      → Keeps (At r sha) (local_git lib gitea environ arguments)
  unfolding local_git
  Keeps-local_git r sha environ arguments = record {
    at = λ w h. laws.local_keeps r environ arguments w ∙ h;
  }

  Keeps-write_part :
      (r sha name : String) (chunks : List (List ℕ))
      → Keeps (At r sha) (write_part lib gitea name chunks)
  unfolding write_part
  Keeps-write_part r sha name chunks = record { at = λ w h. laws.write_keeps r name chunks w ∙ h }

  pub Keeps-head :
      (r sha repository : String) → Keeps (At r sha) (head lib gitea repository fixtures.branch)
  unfolding head git
  Keeps-head r sha repository =
      Keeps-bind _ _ (record { at = λ w h. laws.listing_keeps r _ _ w ∙ h })
        (λ listing. Keeps-pure _)

  Keeps-require_repository :
      (r sha repository : String) → Keeps (At r sha) (require_repository lib gitea repository)
  unfolding require_repository create
  Keeps-require_repository r sha repository = search (action_rules, Keeps-api) depth 8

  Keeps-build_part :
      (r sha repository : String) (environ : List (String × String)) (number : ℕ)
      → Keeps (At r sha) (build_part lib gitea environ repository commits size number)
  unfolding build_part
  Keeps-build_part r sha repository environ number =
      search (action_rules, Keeps-local_git, Keeps-write_part) depth 8

  Keeps-build_parts :
      (r sha repository : String) (environ : List (String × String)) (ns : List ℕ)
      → Keeps (At r sha) (build_parts lib gitea environ repository commits size ns)
  unfolding build_parts
  Keeps-build_parts r sha repository environ [] = search action_rules
  Keeps-build_parts r sha repository environ (n ∷ ns) =
      Keeps-bind _ _ (Keeps-build_part r sha repository environ n)
        (λ x. Keeps-bind _ _ (Keeps-build_parts r sha repository environ ns) (λ xs. Keeps-pure _))

  Keeps-build_repository :
      (r sha repository : String)
      → Keeps
          (At r sha)
          (build_repository lib gitea repository fixtures.author fixtures.branch commits size)
  unfolding build_repository
  Keeps-build_repository r sha repository =
      search (action_rules, Keeps-local_git, Keeps-build_parts) depth 8

  -- A push into another repository.
  Keeps-push_commit :
      (r sha repository pushed : String)
      → (repository =ᵗ r) ≡ false
      → Keeps (At r sha) (push_commit lib gitea repository fixtures.branch pushed)
  unfolding push_commit git
  Keeps-push_commit r sha repository pushed other =
      Keeps-bind _ _ (record { at = λ w h. laws.push_keeps r repository pushed w other ∙ h })
        (λ text. Keeps-pure tt)

  Keeps-push_commits :
      (r sha repository : String) (shas : List String)
      → (repository =ᵗ r) ≡ false
      → Keeps (At r sha) (push_commits lib gitea repository fixtures.branch shas)
  unfolding push_commits
  Keeps-push_commits r sha repository [] other = Keeps-pure tt
  Keeps-push_commits r sha repository (x ∷ xs) other =
      Keeps-bind _ _ (Keeps-push_commit r sha repository x other)
        (λ _. Keeps-push_commits r sha repository xs other)

  Keeps-complete :
      (r sha repository found : String) (expected : List String)
      → (repository =ᵗ r) ≡ false
      → Keeps (At r sha) (
          complete lib gitea repository fixtures.author fixtures.branch commits size expected found)
  unfolding complete
  Keeps-complete r sha repository found expected other =
      search (action_rules, Keeps-build_repository, Keeps-push_commits) depth 10

  -- Loading another repository.
  Keeps-load_repository :
      (r sha repository : String)
      → (repository =ᵗ r) ≡ false
      → Keeps (At r sha) (load_repository lib gitea fixtures commits size repository)
  unfolding load_repository
  Keeps-load_repository r sha repository other =
      search (action_rules, Keeps-require_repository, Keeps-head, Keeps-complete) depth 10

  abbrev pub Any : W → Type 0
  Any w = Unit {0}

  found_after :
      (repository : String) (r : Result String) (w : W)
      → ((text : String)
          → r ≡ ok text
          → (if empty (strip text) then "" else first_word (words text)) ≡ head_of repository w)
      → OnOk
          (λ found. At repository found)
          (continue r
            (λ listing. pure (if empty (strip listing) then "" else first_word (words listing)))
            w).0
          (continue r
            (λ listing. pure (if empty (strip listing) then "" else first_word (words listing)))
            w).1
  unfolding pure
  found_after repository (ok text) w h = sym (h text refl)
  found_after repository (err e) w h = tt

  pub head-At :
      (repository : String)
      → Triple Any (head lib gitea repository fixtures.branch) (λ found. At repository found)
  unfolding head git ◌>>=◌
  head-At repository = record {
    at = λ w h.
        found_after repository _ _ (λ text e.
          laws.listing_is repository text w e ∙ sym (laws.listing_keeps repository _ _ w));
  }

  pushed_after :
      (repository sha : String) (r : Result String) (w : W)
      → ((text : String) → r ≡ ok text → head_of repository w ≡ sha)
      → OnOk
          (λ _. At repository sha)
          (continue r (λ _. pure tt) w).0
          (continue r (λ _. pure tt) w).1
  unfolding pure
  pushed_after repository sha (ok text) w h = h text refl
  pushed_after repository sha (err e) w h = tt

  push_commit-At :
      (repository sha : String)
      → Triple Any (push_commit lib gitea repository fixtures.branch sha) (λ _. At repository sha)
  unfolding push_commit git ◌>>=◌
  push_commit-At repository sha = record {
    at = λ w h. pushed_after repository sha _ _ (λ text e. laws.push_moves repository sha text w e);
  }

  push_commits-At :
      (repository newest : String) (shas : List String)
      → last? shas ≡ some newest
      → Triple Any
          (push_commits lib gitea repository fixtures.branch shas)
          (λ _. At repository newest)
  unfolding push_commits
  push_commits-At repository newest [] l = absurd (ground arith)
  push_commits-At repository newest (x ∷ []) l =
      let q : x ≡ newest = ground arith in
      Triple-bind Any (λ _. At repository newest) _ _ _
        (subst
          (λ sha.
            Triple Any (push_commit lib gitea repository fixtures.branch x)
              (λ _. At repository sha))
          q (push_commit-At repository x))
        (λ _. Keeps-Triple (At repository newest) _ (Keeps-pure tt))
  push_commits-At repository newest (x ∷ y ∷ ys) l =
      Triple-bind Any (λ _. Any) _ _ _ (Triple-true Any _)
        (λ _. push_commits-At repository newest (y ∷ ys) l)

  complete-At :
      (repository found newest : String) (expected : List String)
      → last? expected ≡ some newest
      → (found =ᵗ newest) ≡ false
      → Triple Any
          (complete lib gitea repository fixtures.author fixtures.branch commits size expected
            found)
          (λ _. At repository newest)
  unfolding complete
  complete-At repository found newest expected l n =
      Triple-bind Any
        (λ _ s. Any s × ((not (empty found) && not (is_commit found expected)) ≡ false)) _ _ _
        (Triple-raise_if Any _ _)
        (λ _. Triple-fact Any _ _ _ (λ known.
          Triple-bind Any (λ _. Any) _ _ _ (Triple-true Any _)
            (λ built.
              Triple-bind Any (λ _ s. Any s × (not (same_texts built expected) ≡ false)) _ _ _
                (Triple-raise_if Any _ _)
                (λ _. Triple-fact Any _ _ _ (λ same.
                  let e : built ≡ expected = same_texts-equal built expected (ground arith) in
                  push_commits-At repository newest (pending_commits found built) (
                    subst (λ shas. last? (pending_commits found shas) ≡ some newest) (sym e)
                      (pending-last found newest expected known l n)))))))

  -- A head that is the newest commit is left, and any other one is completed.
  newest_or_complete :
      (repository found newest : String) (expected : List String)
      → last_of expected ≡ ok newest
      → Triple
          (At repository found)
          (if found =ᵗ newest
            then pure tt
            else complete lib gitea repository fixtures.author fixtures.branch commits size expected
                found)
          (λ _ w. last_of expected ≡ ok (head_of repository w))
  newest_or_complete repository found newest expected l = elim (Bool-cases (found =ᵗ newest)) [
    | inl e ↦
        let f : found ≡ newest = (eq_iff found newest).0 e in
        rw e (
          Triple-weaken (At repository found) (pure tt) (λ _. At repository found) _
            (λ a w h. l ∙ ap ok (sym (h ∙ f)))
            (Keeps-Triple (At repository found) (pure tt) (Keeps-pure tt)))
    | inr e ↦ rw e (
        Triple-any (At repository found) _ _ (
          Triple-weaken Any _ (λ _. At repository newest) _ (λ a w h. l ∙ ap ok (sym h))
            (complete-At repository found newest expected (last_of-some expected newest l) e)))
  ]

  -- One repository.
  load_repository-AtNewest :
      (repository : String)
      → Triple Any
          (load_repository lib gitea fixtures commits size repository)
          (λ _. AtNewest repository)
  unfolding load_repository
  load_repository-AtNewest repository =
      Triple-bind Any (λ _. Any) _ _ _ (Triple-true Any _)
        (λ _.
          Triple-bind Any (λ found. At repository found) _ _ _ (head-At repository)
            (λ found.
              Triple-bind (At repository found)
                (λ newest s.
                  At repository found s
                  × (last_of (expected_commits lib repository fixtures.author commits size)
                      ≡ ok newest))
                _ _ _ (Triple-lift (At repository found) _)
                (λ newest.
                  Triple-fact (At repository found) _ _ _
                    (λ l. newest_or_complete repository found newest _ l))))

  -- Loading any repository leaves one that stands at its newest commit there.
  load_repository-keeps_newest :
      (r repository : String)
      → Triple
          (AtNewest r)
          (load_repository lib gitea fixtures commits size repository)
          (λ _. AtNewest r)
  load_repository-keeps_newest r repository = elim (Bool-cases (repository =ᵗ r)) [
    | inl e ↦
        let f : repository ≡ r = (eq_iff repository r).0 e in
        subst
          (λ x.
            Triple (AtNewest r) (load_repository lib gitea fixtures commits size x)
              (λ _. AtNewest r))
          (sym f) (Triple-any (AtNewest r) _ _ (load_repository-AtNewest r))
    | inr e ↦ Keeps-Triple (AtNewest r) _ (record {
      at = λ w h. h ∙ ap ok (sym ((Keeps-load_repository r (head_of r w) repository e).at w refl));
    })
  ]

  load_all-keeps_newest :
      (r : String) (repositories : List String)
      → Triple
          (AtNewest r)
          (for_each (load_repository lib gitea fixtures commits size) repositories)
          (λ _. AtNewest r)
  unfolding for_each
  load_all-keeps_newest r [] = Keeps-Triple (AtNewest r) _ (Keeps-pure tt)
  load_all-keeps_newest r (x ∷ xs) =
      Triple-bind (AtNewest r) (λ _. AtNewest r) _ _ _ (load_repository-keeps_newest r x)
        (λ _. load_all-keeps_newest r xs)

  abbrev pub AllNewest : List String → W → Type 0
  AllNewest repositories w = All (λ r. AtNewest r w) repositories

  pub load_all-AllNewest :
      (repositories : List String)
      → Triple Any
          (for_each (load_repository lib gitea fixtures commits size) repositories)
          (λ _. AllNewest repositories)
  unfolding for_each
  load_all-AllNewest [] = Triple-true Any _
  load_all-AllNewest (x ∷ xs) =
      Triple-bind Any (λ _. AtNewest x) _ _ _ (load_repository-AtNewest x)
        (λ _.
          Triple-both (AtNewest x) _ (λ _. AtNewest x) (λ _. AllNewest xs)
            (load_all-keeps_newest x xs) (Triple-any (AtNewest x) _ _ (load_all-AllNewest xs)))
