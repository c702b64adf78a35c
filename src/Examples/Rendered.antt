-- ===== src/Examples/Rendered.antt =====
-- A render of a cluster with one Kustomization.
use k8s_dr.Prelude.{
  ◌≡◌, refl, String, false, none, some, List, [], ◌∷◌, Result, ok, err, value_error, if◌then◌else◌,
}
use k8s_dr.Text.{◌=ᵗ◌}
use k8s_dr.Manifests.{Document, Render, Kustomization, render_cluster}
use k8s_dr.Manifests.Placed.{IsRendered, render_cluster-IsRendered}

abbrev secret : List String → Document
secret keys = record {
  api_version = "v1";
  kind = "Secret";
  name = "s";
  namespace = some "gitea";
  annotations = [];
  values = [];
  keys = keys;
}

abbrev config : Document
config = record {
  api_version = "v1";
  kind = "ConfigMap";
  name = "cluster-settings";
  namespace = some "flux-system";
  annotations = [];
  values = [];
  keys = [];
}

abbrev sync : Document
sync = record {
  api_version = "kustomize.toolkit.fluxcd.io/v1";
  kind = "Kustomization";
  name = "apps";
  namespace = some "flux-system";
  annotations = [];
  values = [];
  keys = [];
}

abbrev build : String → Result (List Document)
build path =
    if path =ᵗ "./deploy/apps"
    then ok (secret ("kind" ∷ "sops" ∷ []) ∷ [])
    else ok (config ∷ sync ∷ [])

abbrev dump : Document → String
dump d = "name: ${x}"

abbrev read : String → Result Document
read text = err (value_error "no YAML")

abbrev apps : Kustomization
apps = record { name = "apps"; path = "./deploy/apps"; post_build = false; target_namespace = none }

abbrev rendered : Render
rendered = record {
  cluster = "primary";
  name = "apps";
  path = "./deploy/apps";
  documents = secret ("kind" ∷ []) ∷ [];
}

abbrev spec_of : Document → Result Kustomization
spec_of d = ok apps

abbrev root_render : Render
root_render = record {
  cluster = "primary";
  name = "flux-system";
  path = "deploy/clusters/primary";
  documents = config ∷ sync ∷ [];
}

renders :
    render_cluster dump read build spec_of (ok []) "primary" ≡ ok (root_render ∷ rendered ∷ [])
unfolding render_cluster k8s_dr.Manifests.render_all k8s_dr.Manifests.render
    k8s_dr.Manifests.checked k8s_dr.Manifests.missing_namespaces k8s_dr.Text.◌<>◌
    k8s_dr.Text.after_prefix
renders = refl

render_cluster-IsRendered_example :
    IsRendered dump read build spec_of (ok []) "primary" (root_render ∷ rendered ∷ [])
render_cluster-IsRendered_example =
    render_cluster-IsRendered dump read build spec_of (ok []) "primary"
      (root_render ∷ rendered ∷ []) renders
