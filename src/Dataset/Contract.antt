-- ===== src/Dataset/Contract.antt =====
-- The contract of the dataset: what load establishes is what check verifies.
use k8s_dr.Prelude.{
  ℕ, ◌+◌, ◌≡◌, refl, sym, ◌∙◌, ap, failed, String, Bool, true, false, not, ◌&&◌, List, [], ◌∷◌,
  Result, Done, ok, err, Exec, All, pure, raise_if, for_each, arith, if◌then◌else◌, ◌==◌, ==_iff,
}
use text.Mathlib.TextEquality.{eq_iff}
use k8s_dr.Prelude.Keeps.{
  Keeps, Keeps-pure, Keeps-lift, Keeps-bind, action_rules, OnOk, Triple, Triple-bind, Keeps-Triple,
  Triple-any, Triple-lift, Triple-fact, Triple-both, Triple-raise_if, Triple-weaken,
}
use k8s_dr.Text.{◌=ᵗ◌}
use k8s_dr.Dataset.{Library, expected_commits}
use k8s_dr.Dataset.Endpoint.{
  Gitea, Fixtures, last_of, issue_count, create_issue, load, is_behind, count_problems, check,
}
use k8s_dr.Dataset.Loads.{
  EndpointLaws, AtNewest, AllNewest, At, Keeps-api, Keeps-head, head-At, load_all-AllNewest,
}

OnOk-at :
    {S : Type 0} (Q : S → Type 0) (r : Result Done) (s : S) → OnOk (λ _. Q) r s → r ≡ ok tt → Q s
OnOk-at Q (ok a) s h e = h
OnOk-at Q (err x) s h e = absurd (ground arith)

module _ {W G : Type 0} (lib : Library G) (gitea : Gitea W) (fixtures : Fixtures) (commits size : ℕ)
    (head_of : String → W → String) (laws : EndpointLaws gitea fixtures.branch head_of) where
  abbrev Newest : String → W → Type 0
  Newest = AtNewest lib gitea fixtures commits size head_of laws

  abbrev Complete : List String → W → Type 0
  Complete = AllNewest lib gitea fixtures commits size head_of laws

  abbrev Head : String → String → W → Type 0
  Head = At lib gitea fixtures commits size head_of laws

  abbrev Any : W → Type 0
  Any w = Unit {0}

  -- What leaves every head leaves a repository at its newest commit.
  Newest-kept :
      {A : Type 0} (m : Exec W A)
      → ((r sha : String) → Keeps (Head r sha) m)
      → (r : String) → Keeps (Newest r) m
  Newest-kept m k r = record { at = λ w h. h ∙ ap ok (sym ((k r (head_of r w)).at w refl)) }

  Complete-kept :
      {A : Type 0} (m : Exec W A)
      → ((r sha : String) → Keeps (Head r sha) m)
      → (rs : List String) → Keeps (Complete rs) m
  Complete-kept m k [] = record { at = λ w h. tt }
  Complete-kept m k (r ∷ rs) = record {
    at = λ w h. ((Newest-kept m k r).at w h.0, (Complete-kept m k rs).at w h.1);
  }

  Keeps-issue_count :
      (repository r sha : String) → Keeps (Head r sha) (issue_count lib gitea repository)
  unfolding issue_count
  Keeps-issue_count repository r sha =
      search (action_rules, Keeps-api lib gitea fixtures commits size head_of laws) depth 8

  Keeps-create_issues :
      (first : String) (ns : List ℕ) (r sha : String)
      → Keeps (Head r sha) (for_each (create_issue lib gitea first) ns)
  unfolding for_each create_issue
  Keeps-create_issues first [] r sha = search action_rules
  Keeps-create_issues first (n ∷ ns) r sha =
      Keeps-bind _ _
        (search (action_rules, Keeps-api lib gitea fixtures commits size head_of laws) depth 8)
        (λ _. Keeps-create_issues first ns r sha)

  -- A load that returns has put every repository at the newest of its commits, whatever the endpoint held.
  pub load-Complete :
      (repositories : List String) (issues : ℕ) (w : W)
      → (load lib gitea fixtures repositories commits size issues w).0 ≡ ok tt
      → All
          (λ r.
            last_of (expected_commits lib r fixtures.author commits size)
            ≡ ok (head_of r (load lib gitea fixtures repositories commits size issues w).1))
          repositories
  unfolding load
  load-Complete repositories issues w e =
      OnOk-at (Complete repositories) _ _
        ((Triple-bind Any (λ _. Complete repositories) (λ _. Complete repositories) _ _
            (load_all-AllNewest lib gitea fixtures commits size head_of laws repositories)
            (λ _. Keeps-Triple (Complete repositories) _ (
              Complete-kept _
                (λ r sha. Keeps-bind _ _ (Keeps-lift _) (λ first.
                  Keeps-bind _ _ (Keeps-issue_count first r sha)
                    (λ count. Keeps-create_issues first _ r sha)))
                repositories))).at
          w tt)
        e

  -- The comparison of a round of check.
  found-Newest :
      (r found newest : String)
      → last_of (expected_commits lib r fixtures.author commits size) ≡ ok newest
      → Triple
          (Head r found)
          (pure (not (found =ᵗ newest)))
          (λ behind w. behind ≡ false → Newest r w)
  unfolding pure
  found-Newest r found newest l = record {
    at = λ w h e.
        let f : found ≡ newest = (eq_iff found newest).0 (ground arith) in l ∙ ap ok (sym (h ∙ f));
  }

  -- The answer of one round of check.
  is_behind-Newest :
      (r : String)
      → Triple Any
          (is_behind lib gitea fixtures commits size r)
          (λ behind w. behind ≡ false → Newest r w)
  unfolding is_behind
  is_behind-Newest r =
      Triple-bind Any
        (λ newest w.
          Any w × (last_of (expected_commits lib r fixtures.author commits size) ≡ ok newest))
        _ _ _ (Triple-lift Any _)
        (λ newest. Triple-fact Any _ _ _ (λ l.
          Triple-bind Any (λ found. Head r found) _ _ _
            (head-At lib gitea fixtures commits size head_of laws r)
            (λ found. found-Newest r found newest l)))

  Keeps-is_behind :
      (repository r sha : String)
      → Keeps (Head r sha) (is_behind lib gitea fixtures commits size repository)
  unfolding is_behind
  Keeps-is_behind repository r sha = Keeps-bind _ _ (Keeps-lift _) (λ newest.
      Keeps-bind _ _ (Keeps-head lib gitea fixtures commits size head_of laws r sha repository)
        (λ found. Keeps-pure _))

  Keeps-count_problems :
      (rs : List String) (r sha : String)
      → Keeps (Head r sha) (count_problems lib gitea fixtures commits size rs)
  unfolding count_problems
  Keeps-count_problems [] r sha = Keeps-pure 0
  Keeps-count_problems (x ∷ xs) r sha =
      Keeps-bind _ _ (Keeps-is_behind x r sha)
        (λ behind. Keeps-bind _ _ (Keeps-count_problems xs r sha) (λ n. Keeps-pure _))

  -- What a round has found stays so in the later rounds.
  Keeps-found :
      (behind : Bool) (r : String) (rs : List String)
      → Keeps (λ w. behind ≡ false → Newest r w) (count_problems lib gitea fixtures commits size rs)
  Keeps-found behind r rs = record {
    at = λ w h e. (Newest-kept _ (Keeps-count_problems rs) r).at w (h e);
  }

  added :
      (behind : Bool) (n : ℕ) (r : String) (rs : List String)
      → Triple
          (λ w. (behind ≡ false → Newest r w) × (n ≡ 0 → Complete rs w))
          (pure (if behind then n + 1 else n))
          (λ m w. m ≡ 0 → Complete (r ∷ rs) w)
  unfolding pure
  added true n r rs = record { at = λ w h e. absurd (omega arith) }
  added false n r rs = record { at = λ w h e. (h.0 refl, h.1 e) }

  count_problems-Complete :
      (rs : List String)
      → Triple Any
          (count_problems lib gitea fixtures commits size rs)
          (λ n w. n ≡ 0 → Complete rs w)
  unfolding count_problems pure
  count_problems-Complete [] = record { at = λ w h e. tt }
  count_problems-Complete (r ∷ rs) =
      Triple-bind Any (λ behind w. behind ≡ false → Newest r w) _ _ _ (is_behind-Newest r)
        (λ behind.
          Triple-bind (λ w. behind ≡ false → Newest r w)
            (λ n w. (behind ≡ false → Newest r w) × (n ≡ 0 → Complete rs w)) _ _ _
            (Triple-both _ _ _ _ (Keeps-Triple _ _ (Keeps-found behind r rs))
              (Triple-any _ _ _ (count_problems-Complete rs)))
            (λ n. added behind n r rs))

  -- The end of check.
  passed_check :
      (n count issues : ℕ) (rs : List String)
      → Triple
          (λ w. n ≡ 0 → Complete rs w)
          (raise_if
            (not (n == 0 && count == issues))
            (failed "the endpoint does not hold the dataset"))
          (λ _. Complete rs)
  passed_check n count issues rs =
      Triple-weaken _ _ _ (λ _. Complete rs)
        (λ a w h. let q : n ≡ 0 = (==_iff n 0).0 (let k = h.1 in ground arith) in h.0 q)
        (Triple-raise_if (λ w. n ≡ 0 → Complete rs w) (not (n == 0 && count == issues))
          (failed "the endpoint does not hold the dataset"))

  -- A check that returns has seen every repository at the newest of its commits.
  pub check-Complete :
      (repositories : List String) (issues : ℕ) (w : W)
      → (check lib gitea fixtures repositories commits size issues w).0 ≡ ok tt
      → All
          (λ r.
            last_of (expected_commits lib r fixtures.author commits size)
            ≡ ok (head_of r (check lib gitea fixtures repositories commits size issues w).1))
          repositories
  unfolding check
  check-Complete repositories issues w e =
      OnOk-at (Complete repositories) _ _
        ((Triple-bind Any (λ n w. n ≡ 0 → Complete repositories w) (λ _. Complete repositories) _ _
            (count_problems-Complete repositories)
            (λ n.
              Triple-bind _ (λ first w. n ≡ 0 → Complete repositories w)
                (λ _. Complete repositories) _ _ (Keeps-Triple _ _ (Keeps-lift _))
                (λ first.
                  Triple-bind _ (λ count w. n ≡ 0 → Complete repositories w)
                    (λ _. Complete repositories) _ _
                    (Keeps-Triple _ _ (record {
                      at = λ w h q.
                          (Complete-kept _ (Keeps-issue_count first) repositories).at w (h q);
                    }))
                    (λ count. passed_check n count issues repositories)))).at
          w tt)
        e
