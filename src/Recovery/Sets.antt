-- ===== src/Recovery/Sets.antt =====
-- Which listings under recovery/ `require_backups_suspended` of scripts/recover.py accepts.
use k8s_dr.Prelude.{
  ℕ, ◌<◌, ◌≡◌, ◌↔◌, refl, String, Option, none, some, List, [], ◌∷◌, ok, All, leb, arith,
  Bool-cases, inl, inr,
}
use k8s_dr.Calendar.{parse_set}
use k8s_dr.Recovery.Commands.{check_sets}

-- The name of a set that was started before `t`.
abbrev pub WrittenBefore : ℕ → String → Type 0
WrittenBefore t name = (written : ℕ) × (parse_set name ≡ some written) × (written < t)

module _ (started : ℕ) (name : String) (names : List String) where
  check_sets-cons :
      (o : Option ℕ)
      → parse_set name ≡ o
      → (check_sets started names ≡ ok tt) ↔ All (WrittenBefore started) names
      → (check_sets started (name ∷ names) ≡ ok tt)
        ↔ (WrittenBefore started name × All (WrittenBefore started) names)
  unfolding check_sets
  check_sets-cons none e ih = (λ h. ground arith, λ h. let k = h.0.1 in ground arith)
  check_sets-cons (some t) e ih = elim (Bool-cases (leb started t)) [
    | inl late ↦ (λ h. ground arith, λ h. let k = h.0.1 in let l = h.0.2 in ground arith)
    | inr early ↦ (
      λ h. ((t, e, ground arith), ih.0 (ground arith)),
      λ h. let k : check_sets started names ≡ ok tt = ih.1 h.1 in ground arith,
    )
  ]

-- The listing is accepted exactly when every name in it is the name of a set started before the run.
pub check_sets_iff :
    (started : ℕ) (names : List String)
    → (check_sets started names ≡ ok tt) ↔ All (WrittenBefore started) names
unfolding check_sets
check_sets_iff started [] = (λ h. tt, λ h. refl)
check_sets_iff started (name ∷ names) =
    check_sets-cons started name names (parse_set name) refl (check_sets_iff started names)
