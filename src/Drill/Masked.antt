-- ===== src/Drill/Masked.antt =====
-- scripts/drill.py: what the body of the issue of a drill does not show.
use mathlib.Core.List.{Memᴰ}
use k8s_dr.Prelude.{
  ◌≡◌, refl, pure, subst, String, true, false, ◌==◌, some, Result, ok, err, arith, Bool-cases, inl,
  inr,
}
use k8s_dr.Prelude.Keeps.{Ensures, OnOk, Ensures-bind}
use k8s_dr.Text.{◌<>◌, empty, after_prefix, contains, contains_char}
use k8s_dr.Watchdog.{env_get}
use k8s_dr.Drill.State.{Drill, DrillSystem, Ending}
use k8s_dr.Drill.Issue.{issue_body}
use k8s_dr.Drill.Masking.{starts, masked_names}
use k8s_dr.Drill.Masking.Hides.{
  NoStar, starts-cons, starts-cons_of, contains-cons, contains_of_starts, contains_of_tail,
  masked-hides,
}

-- A text that a line end behind another text is no part of.
abbrev pub NoLineEnd : String → Type 0
NoLineEnd t = contains_char (λ c. c == 10) t ≡ false

starts-line_end : (v t : String) → NoLineEnd v → starts v (t <> "\n") ≡ true → starts v t ≡ true
unfolding ◌<>◌ contains_char
starts-line_end String.[] t n h = unfold after_prefix in refl
starts-line_end (String.◌∷◌ c v) String.[] n h =
    let k = (starts-cons c "\n" v "" h).0 in absurd (ground arith)
starts-line_end (String.◌∷◌ c v) (String.◌∷◌ d t) n h =
    let k = starts-cons c d v (t <> "\n") h in
    starts-cons_of c d v t k.0 (starts-line_end v t (ground arith) k.1)

contains-line_end :
    (v t : String)
    → NoLineEnd v
    → empty v ≡ false
    → contains v (t <> "\n") ≡ true
    → contains v t ≡ true
unfolding ◌<>◌ contains_char
contains-line_end String.[] t n e h = absurd (ground arith)
contains-line_end (String.◌∷◌ c v) String.[] n e h =
    elim (contains-cons (String.◌∷◌ c v) "\n" "" h) [
      | inl s ↦ absurd (let k = (starts-cons c "\n" v "" s).0 in ground arith)
      | inr s ↦ s
    ]
contains-line_end (String.◌∷◌ c v) (String.◌∷◌ d t) n e h =
    elim (contains-cons (String.◌∷◌ c v) d (t <> "\n") h) [
      | inl s ↦
          contains_of_starts (String.◌∷◌ c v) d t
            (starts-line_end (String.◌∷◌ c v) (String.◌∷◌ d t) n s)
      | inr s ↦ contains_of_tail (String.◌∷◌ c v) d t (contains-line_end (String.◌∷◌ c v) t n e s)
    ]

line-hides :
    (v t : String)
    → NoLineEnd v
    → empty v ≡ false
    → contains v t ≡ false
    → contains v (t <> "\n") ≡ false
line-hides v t n e h = elim (Bool-cases (contains v (t <> "\n"))) [
  | inl k ↦ absurd (let l = contains-line_end v t n e k in ground arith)
  | inr k ↦ k
]

OnOk-value :
    {A S : Type 0} (Q : A → Type 0) (r : Result A) (s : S) (a : A)
    → OnOk (λ b _. Q b) r s
    → r ≡ ok a
    → Q a
OnOk-value Q (ok b) s a h e = let q : b ≡ a = ground arith in subst Q q h
OnOk-value Q (err x) s a h e = absurd (ground arith)

module _ {W : Type 0} ⦃sys : DrillSystem W⦄ (name value : String) (m : Memᴰ name masked_names)
    (e : env_get name sys.requests.environ ≡ some value) (n : NoStar value)
    (l : NoLineEnd value) where
  Ensures-issue_body :
      (ending : Ending)
      → Ensures {S = Drill W} (λ body _. contains value body ≡ false) (issue_body ending)
  unfolding issue_body pure
  Ensures-issue_body ending = Ensures-bind _ _ (λ stages. Ensures-bind _ _ (λ state. record {
    at = λ d. line-hides value _ l n.1 (masked-hides sys.requests.environ name value _ m e n);
  }))

  -- The body of the issue of a drill holds the value of no variable of MASKED, if the value is not empty and has no
  -- star and no line end.
  pub issue_body-hides :
      (ending : Ending) (d : Drill W) (body : String)
      → (issue_body ending d).0 ≡ ok body
      → contains value body ≡ false
  issue_body-hides ending d body h =
      OnOk-value (λ b. contains value b ≡ false) _ (issue_body ending d).1 body
        ((Ensures-issue_body ending).at d) h
