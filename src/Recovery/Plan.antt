-- ===== src/Recovery/Plan.antt =====
-- Which plans of Terraform the recovery accepts.
use mathlib.Core.List.{Memᴰ}
use mathlib.Core.List.Memᴰ
use k8s_dr.Prelude.{
  ◌≡◌, ◌↔◌, ◌⊎◌, inl, inr, refl, sym, ap, String, true, false, Option, none, some, List, [], ◌∷◌,
  Result, ok, All, arith, Bool-cases, ◌∙◌,
}
use text.Mathlib.TextEquality.{eq_iff}
use k8s_dr.Text.{◌=ᵗ◌}
use k8s_dr.Recovery.State.{Change}
use k8s_dr.Recovery.Stages.{
  is_forbidden, only, has, plan_problem, problems, check_plan, plan_result,
}

abbrev pub Accepted : Result String → Type 0
Accepted r = (note : String) × (r ≡ ok note)

pub has-mem : (t : String) (ts : List String) → has t ts ≡ true → Memᴰ t ts
has-mem t [] h = ground arith
has-mem t (u ∷ ts) h = elim (Bool-cases (u =ᵗ t)) [
  | inl e ↦ Memᴰ.head (sym ((eq_iff u t).0 e))
  | inr e ↦ Memᴰ.tail (has-mem t ts (ground arith))
]

pub mem-has : (t : String) (ts : List String) → Memᴰ t ts → has t ts ≡ true
mem-has t [] m = absurd (Memᴰ.not-nil m)
mem-has t (u ∷ ts) (Memᴰ.head e) = rw ((eq_iff u t).1 (sym e)) refl
mem-has t (u ∷ ts) (Memᴰ.tail m) = elim (Bool-cases (u =ᵗ t)) [
  | inl e ↦ rw e refl
  | inr e ↦ rw e (mem-has t ts m)
]

pub only_iff : (t : String) (ts : List String) → (only t ts ≡ true) ↔ (ts ≡ t ∷ [])
only_iff t [] = (λ h. ground arith, λ h. ground arith)
only_iff t (u ∷ []) = (λ h. ap (λ s. s ∷ []) ((eq_iff u t).0 h), λ h. (eq_iff u t).1 (ground arith))
only_iff t (u ∷ v ∷ ts) = (λ h. ground arith, λ h. ground arith)

abbrev with_problem : Option String → List String → List String
with_problem none rest = rest
with_problem (some problem) rest = problem ∷ rest

problems-cons :
    (f : Change → Option String) (c : Change) (cs : List Change) (o : Option String)
    → f c ≡ o
    → problems f (c ∷ cs) ≡ with_problem o (problems f cs)
unfolding problems
problems-cons f c cs none e =
    ap (λ o. elim o as (λ _. List String) [ none ↦ problems f cs | some p ↦ p ∷ problems f cs ]) e
problems-cons f c cs (some q) e =
    ap (λ o. elim o as (λ _. List String) [ none ↦ problems f cs | some p ↦ p ∷ problems f cs ]) e

problems_go :
    (f : Change → Option String) (c : Change) (cs : List Change) (o : Option String)
    → f c ≡ o
    → (problems f cs ≡ []) ↔ All (λ c. f c ≡ none) cs
    → (problems f (c ∷ cs) ≡ []) ↔ ((f c ≡ none) × All (λ c. f c ≡ none) cs)
problems_go f c cs none e ih =
    let k = problems-cons f c cs none e in (λ h. (e, ih.0 (sym k ∙ h)), λ h. k ∙ ih.1 h.1)
problems_go f c cs (some p) e ih =
    let k = problems-cons f c cs (some p) e in (λ h. ground arith, λ h. ground arith)

-- The list of problems is empty just when no change has one.
pub problems-none :
    (f : Change → Option String) (cs : List Change)
    → (problems f cs ≡ []) ↔ All (λ c. f c ≡ none) cs
unfolding problems
problems-none f [] = (λ h. tt, λ h. refl)
problems-none f (c ∷ cs) = problems_go f c cs (f c) refl (problems-none f cs)

-- A change that deletes nothing, and touches no account or grant.
abbrev pub Safe : Change → Type 0
Safe c =
    (Memᴰ "delete" c.actions → ⊥) × ((is_forbidden c.kind ≡ false) ⊎ (c.actions ≡ "no-op" ∷ []))

not_deleted : (c : Change) → (has "delete" c.actions ≡ false) ↔ (Memᴰ "delete" c.actions → ⊥)
not_deleted c = (
  λ h m. let k = mem-has "delete" c.actions m in ground arith,
  λ h. elim (Bool-cases (has "delete" c.actions)) [
    | inl e ↦ absurd (h (has-mem _ _ e))
    | inr e ↦ e
  ],
)

pub plan_problem-none : (c : Change) → (plan_problem c ≡ none) ↔ Safe c
unfolding plan_problem
plan_problem-none c = elim (Bool-cases (has "delete" c.actions)) [
  | inl d ↦ (λ h. ground arith, λ h. absurd (h.0 (has-mem _ _ d)))
  | inr d ↦ elim (Bool-cases (is_forbidden c.kind)) [
    | inr a ↦ (λ h. ((not_deleted c).0 d, inl a), λ h. rw (d, a) refl)
    | inl a ↦ elim (Bool-cases (only "no-op" c.actions)) [
      | inl n ↦ (λ h. ((not_deleted c).0 d, inr ((only_iff _ _).0 n)), λ h. rw (d, a, n) refl)
      | inr n ↦ (
        λ h. ground arith,
        λ h. elim h.1 [ inl z ↦ ground arith | inr z ↦ let k = (only_iff _ _).1 z in ground arith ],
      )
    ]
  ]
]

pub All-iff {ℓ} :
    {A : Type ℓ} (P Q : A → Type 0) (xs : List A) → ((x : A) → P x ↔ Q x) → All P xs ↔ All Q xs
All-iff P Q [] h = (λ k. k, λ k. k)
All-iff P Q (x ∷ xs) h =
    let ih = All-iff P Q xs h in (λ k. ((h x).0 k.0, ih.0 k.1), λ k. ((h x).1 k.0, ih.1 k.1))

plan_result-ok :
    (ps : List String) (plan : List Change) → Accepted (plan_result ps plan) ↔ (ps ≡ [])
plan_result-ok [] plan = (λ h. refl, λ h. (_, refl))
plan_result-ok (p ∷ ps) plan = (λ h. let e = h.1 in ground arith, λ h. ground arith)

-- A recovery plan is accepted exactly when each of its changes deletes nothing and, if its resource
-- is a service account or an IAM grant, does nothing at all.
pub check_plan_iff : (plan : List Change) → Accepted (check_plan plan) ↔ All Safe plan
unfolding check_plan
check_plan_iff plan =
    let a = plan_result-ok (problems plan_problem plan) plan in
    let b = problems-none plan_problem plan in
    let c = All-iff (λ c. plan_problem c ≡ none) Safe plan plan_problem-none in
    (λ h. c.0 (b.0 (a.0 h)), λ h. a.1 (b.1 (c.1 h)))
