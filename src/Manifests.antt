-- ===== src/Manifests.antt =====
-- scripts/check_manifests.py: the render of a cluster. Documents are given decoded; the build, the YAML that the
-- substitution goes through, and the files are parameters.
pub mod Placed
use k8s_dr.Prelude.{
  ℕ, zero, suc, ◌+◌, ◌-◌, String, Bool, true, false, not, ◌&&◌, ◌||◌, Option, none, some, List, [],
  ◌∷◌, ◌++◌, map, any, keep, Error, value_error, runtime_error, Result, ok, err, code,
  if◌then◌else◌, ◌==◌,
}
use k8s_dr.Text.{◌=ᵗ◌, ◌<>◌, empty, join, after_prefix, is_word, sorted_texts}
use k8s_dr.Report.{and_then}
use k8s_dr.Watchdog.{is_text, env_get}
use k8s_dr.Drill.Masking.{starts, text_length}

-- What a document holds of what the script reads; `keys` are the names of its fields, and `values` the data of a
-- ConfigMap.
pub record Document : Type 0 where
  pub api_version : String
  pub kind : String
  pub name : String
  pub namespace : Option String
  pub annotations : List (String × String)
  pub values : List (String × String)
  pub keys : List String

pub record Render : Type 0 where
  pub cluster : String
  pub name : String
  pub path : String
  pub documents : List Document

-- A Kustomization of Flux.
pub record Kustomization : Type 0 where
  pub name : String
  pub path : String
  pub post_build : Bool
  pub target_namespace : Option String

abbrev pub cluster_scoped : List String
cluster_scoped =
    "ClusterIssuer" ∷ "ClusterRole" ∷ "ClusterRoleBinding" ∷ "CustomResourceDefinition"
    ∷ "GatewayClass" ∷ "Namespace" ∷ "PriorityClass" ∷ "StorageClass" ∷ []

abbrev pub substitute_annotation : String
substitute_annotation = "kustomize.toolkit.fluxcd.io/substitute"

abbrev put_word : ℕ → String × String → String × String → String × String
put_word c taken rest = if is_word c then taken else rest

-- The word characters in front, and what follows them.
unfoldable pub take_word : String → String × String
take_word String.[] = ("", "")
take_word (String.◌∷◌ c s) =
    let later = take_word s in
    put_word (code c) (String.◌∷◌ c later.0, later.1) ("", String.◌∷◌ c s)

abbrev closed : String × String → Option String
closed w = if not (empty w.0) && starts "}" w.1 then some w.0 else none

-- A match of VARIABLE at the start of a text, with its name.
unfoldable pub variable_at : String → Option String
variable_at s = elim (after_prefix "${" s) [ none ↦ none | some rest ↦ closed (take_word rest) ]

-- `VARIABLE.findall`; `skip` counts the characters of a match that are still to come.
unfoldable pub variables : ℕ → String → List String
variables skip String.[] = []
variables (suc skip) (String.◌∷◌ c s) = variables skip s
variables zero (String.◌∷◌ c s) = elim (variable_at (String.◌∷◌ c s)) [
  | none ↦ variables 0 s
  | some name ↦ name ∷ variables (text_length name + 2) s
]

abbrev setting : List (String × String) → String → String
setting settings name = elim (env_get name settings) [ none ↦ "" | some value ↦ value ]

-- `VARIABLE.sub`, with settings that hold every name.
unfoldable pub put_settings : List (String × String) → ℕ → String → String
put_settings settings skip String.[] = ""
put_settings settings (suc skip) (String.◌∷◌ c s) = put_settings settings skip s
put_settings settings zero (String.◌∷◌ c s) = elim (variable_at (String.◌∷◌ c s)) [
  | none ↦ String.◌∷◌ c (put_settings settings 0 s)
  | some name ↦ setting settings name <> put_settings settings (text_length name + 2) s
]

abbrev is_undefined : List (String × String) → String → Bool
is_undefined settings name = elim (env_get name settings) [ none ↦ true | some _ ↦ false ]

abbrev pub has_any : List String → Bool
has_any [] = false
has_any (_ ∷ _) = true

abbrev pub has_value : Option String → Bool
has_value none = false
has_value (some t) = not (empty t)

-- A namespaced object without a namespace.
abbrev pub is_homeless : Document → Bool
is_homeless d = not (any (λ k. k =ᵗ d.kind) cluster_scoped) && not (has_value d.namespace)

-- `missing_namespaces`.
unfoldable pub missing_namespaces : List Document → Option String → List String
missing_namespaces documents target =
    if has_value target then [] else map (λ d. d.kind <> "/" <> d.name) (keep is_homeless documents)

-- `without_sops_metadata`.
abbrev pub without_sops_metadata : Document → Document
without_sops_metadata d = record d { keys = keep (λ k. not (k =ᵗ "sops")) d.keys }

abbrev pub with_missing : String → Kustomization → List Document → List String → Result Render
with_missing cluster k documents missing =
    if has_any missing
    then err (value_error (k.path <> ": no namespace on " <> join ", " missing))
    else ok (record {
      cluster = cluster;
      name = k.name;
      path = k.path;
      documents = map without_sops_metadata documents;
    })

-- The checks of one Kustomization, with its documents.
unfoldable pub checked : String → Kustomization → List Document → Result Render
checked cluster k documents =
    with_missing cluster k documents (missing_namespaces documents k.target_namespace)

module _ (dump : Document → String) (read : String → Result Document)
    (build : String → Result (List Document)) where
  -- `substitute`.
  unfoldable pub substitute : List (String × String) → Document → Result Document
  substitute settings d =
      if is_text (env_get substitute_annotation d.annotations) "disabled"
      then ok d
      else let undefined = sorted_texts (keep (is_undefined settings) (variables 0 (dump d))) in
        if has_any undefined
        then err (value_error ("undefined variables: " <> join ", " undefined))
        else read (put_settings settings 0 (dump d))

  unfoldable pub substitute_all : List (String × String) → List Document → Result (List Document)
  substitute_all settings [] = ok []
  substitute_all settings (d ∷ ds) =
      and_then (substitute settings d) λ e. and_then (substitute_all settings ds) λ es. ok (e ∷ es)

  abbrev pub built : List (String × String) → Kustomization → Result (List Document)
  built settings k =
      and_then (build k.path) λ ds. if k.post_build then substitute_all settings ds else ok ds

  -- One round of the loop of `render_cluster`.
  unfoldable pub render : String → List (String × String) → Kustomization → Result Render
  render cluster settings k = and_then (built settings k) (checked cluster k)

  abbrev pub is_settings : Document → Bool
  is_settings d = d.kind =ᵗ "ConfigMap" && d.name =ᵗ "cluster-settings"

  abbrev pub is_flux : Document → Bool
  is_flux d = starts "kustomize.toolkit.fluxcd.io/" d.api_version

  abbrev pub first_values : List Document → Result (List (String × String))
  first_values [] = err (runtime_error "StopIteration")
  first_values (d ∷ ds) = ok d.values

  -- What a document says as a Kustomization, and the documents of EXTRA_SYNC.
  module _ (spec_of : Document → Result Kustomization) (extra_sync : Result (List Document)) where
    unfoldable pub render_all :
        String → List (String × String) → List Document → Result (List Render)
    render_all cluster settings [] = ok []
    render_all cluster settings (d ∷ ds) = and_then (spec_of d) λ k.
        and_then (render cluster settings k)
          λ r. and_then (render_all cluster settings ds) λ rs. ok (r ∷ rs)

    -- `render_cluster`.
    unfoldable pub render_cluster : String → Result (List Render)
    render_cluster cluster =
        let root_path = "deploy/clusters/" <> cluster in
        and_then (build root_path) λ root.
          and_then (first_values (keep is_settings root)) λ settings. and_then extra_sync λ extra.
            and_then (render_all cluster settings (keep is_flux root ++ extra)) λ renders. ok (
              record { cluster = cluster; name = "flux-system"; path = root_path; documents = root }
              ∷ renders)
