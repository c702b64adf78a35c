-- ===== src/Return/Plan.antt =====
-- Which destroy plans of Terraform the return accepts.
use k8s_dr.Prelude.{
  ◌≡◌, ◌≢◌, ◌↔◌, ◌⊎◌, inl, inr, refl, String, false, none, List, [], ◌∷◌, All, arith, Bool-cases,
}
use k8s_dr.Recovery.State.{Change}
use k8s_dr.Recovery.Stages.{is_forbidden, only, problems}
use k8s_dr.Recovery.Plan.{Accepted, problems-none, only_iff, All-iff}
use k8s_dr.Return.Stages.{destroy_problem, destroy_result, check_destroy_plan}

-- A change that does nothing, or only deletes what is no account or grant.
abbrev pub OnlyDeletes : Change → Type 0
OnlyDeletes c =
    (c.actions ≡ "no-op" ∷ []) ⊎ ((c.actions ≡ "delete" ∷ []) × (is_forbidden c.kind ≡ false))

destroy_problem-none : (c : Change) → (destroy_problem c ≡ none) ↔ OnlyDeletes c
unfolding destroy_problem
destroy_problem-none c = elim (Bool-cases (only "no-op" c.actions)) [
  | inl n ↦ (λ h. inl ((only_iff _ _).0 n), λ h. rw n refl)
  | inr n ↦
      let not_idle : c.actions ≢ "no-op" ∷ [] = λ z. let k = (only_iff _ _).1 z in ground arith in
      elim (Bool-cases (only "delete" c.actions)) [
        | inr d ↦ (
          λ h. ground arith,
          λ h. elim h [
            | inl z ↦ absurd (not_idle z)
            | inr z ↦ let k = (only_iff _ _).1 z.0 in ground arith
          ],
        )
        | inl d ↦ elim (Bool-cases (is_forbidden c.kind)) [
          | inr a ↦ (λ h. inr ((only_iff _ _).0 d, a), λ h. rw (n, d, a) refl)
          | inl a ↦ (
            λ h. ground arith,
            λ h. elim h [ inl z ↦ absurd (not_idle z) | inr z ↦ let k = z.1 in ground arith ],
          )
        ]
      ]
]

destroy_result-ok :
    (ps : List String) (plan : List Change) → Accepted (destroy_result ps plan) ↔ (ps ≡ [])
destroy_result-ok [] plan = (λ h. refl, λ h. (_, refl))
destroy_result-ok (p ∷ ps) plan = (λ h. let e = h.1 in ground arith, λ h. ground arith)

-- A destroy plan is accepted exactly when each of its changes does nothing, or does nothing but delete
-- a resource that is neither a service account nor an IAM grant.
pub check_destroy_plan_iff :
    (plan : List Change) → Accepted (check_destroy_plan plan) ↔ All OnlyDeletes plan
unfolding check_destroy_plan
check_destroy_plan_iff plan =
    let a = destroy_result-ok (problems destroy_problem plan) plan in
    let b = problems-none destroy_problem plan in
    let c = All-iff (λ c. destroy_problem c ≡ none) OnlyDeletes plan destroy_problem-none in
    (λ h. c.0 (b.0 (a.0 h)), λ h. a.1 (b.1 (c.1 h)))
