-- ===== src/Drill/Masking.antt =====
-- scripts/drill.py: `masked`, which hides the values of secrets in the body of an issue.
pub mod Hides
use k8s_dr.Prelude.{
  ℕ, zero, suc, ◌-◌, String, Bool, true, false, ◌||◌, Option, none, some, List, [], ◌∷◌,
  if◌then◌else◌,
}
use k8s_dr.Text.{◌<>◌, empty, after_prefix}
use k8s_dr.Watchdog.{env_get}

abbrev pub text_length : String → ℕ
text_length String.[] = 0
text_length (String.◌∷◌ c s) = suc (text_length s)

-- Whether `s` starts with `t`.
abbrev pub starts : String → String → Bool
starts t s = elim (after_prefix t s) [ none ↦ false | some _ ↦ true ]

-- `s.replace(old, "***")` for an `old` that is not empty, from left to right. `skip` counts the characters
-- of a replaced occurrence that are still to come.
unfoldable pub stars_from : String → ℕ → String → String
stars_from old skip String.[] = String.[]
stars_from old (suc skip) (String.◌∷◌ c s) = stars_from old skip s
stars_from old zero (String.◌∷◌ c s) =
    let replaced = "***" <> stars_from old (text_length old - 1) s in
    let kept = String.◌∷◌ c (stars_from old 0 s) in
    if starts old (String.◌∷◌ c s) then replaced else kept

-- MASKED.
abbrev pub masked_names : List String
masked_names =
    "GCP_PROJECT_ID" ∷ "GCP_WORKLOAD_IDENTITY_PROVIDER" ∷ "GCP_SERVICE_ACCOUNT" ∷ "STATE_BUCKET"
    ∷ "BACKUP_BUCKET" ∷ "ADMIN_MEMBER" ∷ "RECOVERY_READER_MEMBER" ∷ []

-- One round of the loop: a variable that is not set, or empty, hides nothing.
abbrev pub mask_one : Option String → String → String
mask_one none text = text
mask_one (some value) text = if empty value then text else stars_from value 0 text

unfoldable pub mask_all : List (String × String) → List String → String → String
mask_all environ [] text = text
mask_all environ (name ∷ names) text = mask_all environ names (mask_one (env_get name environ) text)

-- `masked`.
unfoldable pub masked : List (String × String) → String → String
masked environ text = mask_all environ masked_names text
