-- ===== src/Pins.antt =====
-- scripts/check_pins.py: whether every pinned artifact still resolves. `fetch` takes a URL and a method; the YAML of
-- the variables, of a chart index and of the deploy tree, and the JSON of a token, are given decoded.
pub mod Laws
use k8s_dr.Prelude.{
  ℕ, String, Char, code, Bool, true, false, not, ◌&&◌, ◌||◌, Option, none, some, List, [], ◌∷◌,
  ◌++◌, Error, message, os_error, key_error, value_error, Result, Done, ok, err, any, all, keep,
  ◌==◌, if◌then◌else◌, map,
}
use k8s_dr.Text.{
  ◌=ᵗ◌, ◌<>◌, empty, strip, splitlines, contains_char, last_part, after_prefix, join, drop_end,
}
use k8s_dr.Report.{and_then}
use k8s_dr.Recovery.Stages.{has}
use k8s_dr.Recovery.Commands.{lookup}

-- `Result` of the script.
pub record Check : Type 0 where
  pub name : String
  pub passed : Bool
  pub detail : String

abbrev pub good : String → String → Check
good name detail = record { name = name; passed = true; detail = detail }

abbrev pub bad : String → String → Check
bad name detail = record { name = name; passed = false; detail = detail }

-- The text in front of and behind the first `c`.
unfoldable pub cut : ℕ → String → Option (String × String)
cut c String.[] = none
cut c (String.◌∷◌ d s) =
    let rest = cut c s in
    if code d == c
    then some ("", s)
    else elim rest [ none ↦ none | some p ↦ some (String.◌∷◌ d p.0, p.1) ]

-- The text in front of the last `c`.
unfoldable pub before_last : ℕ → String → Option String
before_last c String.[] = none
before_last c (String.◌∷◌ d s) = elim (before_last c s) [
  | some t ↦ some (String.◌∷◌ d t)
  | none ↦ if code d == c then some "" else none
]

-- `line.partition(": ")`, where the separator is found.
unfoldable pub partition_field : String → Option (String × String)
partition_field String.[] = none
partition_field (String.◌∷◌ c s) =
    let rest = partition_field s in
    elim (after_prefix ": " (String.◌∷◌ c s)) [
      | some value ↦ some ("", value)
      | none ↦ elim rest [ none ↦ none | some p ↦ some (String.◌∷◌ c p.0, p.1) ]
    ]

abbrev indented : String → Bool
indented line = elim (after_prefix " " line) [ none ↦ false | some _ ↦ true ]

-- The fields of one stanza, the last of each key first.
unfoldable pub stanza_fields : List (String × String) → List String → List (String × String)
stanza_fields fields [] = fields
stanza_fields fields (line ∷ lines) =
    let without = stanza_fields fields lines in
    elim (partition_field line) [
      | none ↦ without
      | some (key, value) ↦
          let with_it = stanza_fields ((key, strip value) ∷ fields) lines in
          if indented line then without else with_it
    ]

-- `index_text.split("\n\n")`; `stanza` is what is read of the one at hand.
unfoldable pub stanzas : String → String → List String
stanzas stanza String.[] = stanza ∷ []
stanzas stanza (String.◌∷◌ c String.[]) = (stanza <> String.◌∷◌ c String.[]) ∷ []
stanzas stanza (String.◌∷◌ c (String.◌∷◌ d s)) =
    let closed = stanzas "" s in
    let open_one = stanzas (stanza <> String.◌∷◌ c String.[]) (String.◌∷◌ d s) in
    if code c == 10 && code d == 10 then stanza ∷ closed else open_one

-- The version of the package in one stanza.
abbrev pub version_in : String → List (String × String) → Result String
version_in package_name fields =
    and_then (lookup "Package" fields)
      λ p. if p =ᵗ package_name then lookup "Version" fields else err (key_error "Package")

unfoldable pub versions_in : String → List String → List String
versions_in package_name [] = []
versions_in package_name (stanza ∷ rest) =
    let later = versions_in package_name rest in
    elim (version_in package_name (stanza_fields [] (splitlines stanza))) [
      | ok v ↦ v ∷ later
      | err _ ↦ later
    ]

unfoldable pub debian_package_versions : String → String → List String
debian_package_versions index package_name = versions_in package_name (stanzas "" index)

abbrev pub kubernetes_packages : List String
kubernetes_packages = "kubelet" ∷ "kubeadm" ∷ "kubectl" ∷ []

-- The packages of which the index lists no wanted version.
abbrev pub missing_packages : String → String → List String
missing_packages wanted index =
    keep (λ package_name. not (has wanted (debian_package_versions index package_name)))
      kubernetes_packages

abbrev pub published : String → String → List String → Check
published wanted url [] = good "Kubernetes packages" (wanted <> " in " <> url)
published wanted url (p ∷ ps) =
    bad "Kubernetes packages" (wanted <> " not published for " <> join ", " (p ∷ ps))

abbrev default_host : String
default_host = "docker.io"

abbrev pub Reference : Type 0
Reference = String × (String × String)

-- Without a tag: a colon behind the last slash starts one.
unfoldable pub untagged : String → String
untagged name =
    if contains_char (λ c. c == b':') (last_part b'/' name)
    then elim (before_last b':' name) [ none ↦ name | some t ↦ t ]
    else name

abbrev is_host : String → Bool
is_host first = contains_char (λ c. c == b'.') first || contains_char (λ c. c == b':') first

-- The registry host and the repository.
unfoldable pub registry_of : String → String × String
registry_of repository = elim (cut b'/' repository) [
  | none ↦ (default_host, "library/" <> repository)
  | some (first, rest) ↦ if is_host first then (first, rest) else (default_host, repository)
]

-- The name and the digest of a reference, `reference.partition("@")`.
abbrev name_and_digest : String → String × String
name_and_digest reference = elim (cut b'@' reference) [ none ↦ (reference, "") | some p ↦ p ]

-- The token URL and the manifest URL; `none` for a registry that is not checked.
unfoldable pub registry_urls : String → String → String → Option (String × String)
registry_urls host repository digest =
    if host =ᵗ "docker.io"
    then some (
      "https://auth.docker.io/token?service=registry.docker.io&scope=repository:" <> repository
          <> ":pull",
      "https://registry-1.docker.io/v2/" <> repository <> "/manifests/" <> digest,
    )
    else if host =ᵗ "ghcr.io"
    then some (
      "https://ghcr.io/token?scope=repository:" <> repository <> ":pull",
      "https://ghcr.io/v2/" <> repository <> "/manifests/" <> digest,
    )
    else none

-- `except (URLError, TimeoutError)`, which are both OSError; the image check catches two more.
abbrev pub or_bad : String → Result Check → Result Check
or_bad name (err (os_error m)) = ok (bad name m)
or_bad name r = r

abbrev pub or_bad_image : String → Result Check → Result Check
or_bad_image name (err (key_error m)) = ok (bad name m)
or_bad_image name (err (value_error m)) = ok (bad name m)
or_bad_image name r = or_bad name r

-- A name and the URL of each pinned file.
unfoldable pub artifact_urls : List (String × String) → Result (List (String × String))
artifact_urls pins = and_then (lookup "calico_version" pins) λ calico_version.
    and_then (lookup "local_path_provisioner_version" pins) λ provisioner.
      and_then (lookup "helm_version" pins) λ helm_version.
        and_then (lookup "gateway_api_version" pins) λ gateway.
          and_then (lookup "flux_version" pins) λ flux.
            let calico =
              "https://raw.githubusercontent.com/projectcalico/calico/v" <> calico_version in
            let helm = "https://get.helm.sh/helm-v" <> helm_version <> "-linux-amd64.tar.gz" in
            ok (
              ("Calico operator CRDs", calico <> "/manifests/operator-crds.yaml")
              ∷ ("Calico operator", calico <> "/manifests/tigera-operator.yaml")
              ∷ (
                "Gateway API Standard CRDs",
                "https://github.com/kubernetes-sigs/gateway-api/releases/download/v" <> gateway
                    <> "/standard-install.yaml",
              )
              ∷ (
                "Local Path Provisioner",
                "https://raw.githubusercontent.com/rancher/local-path-provisioner/v" <> provisioner
                    <> "/deploy/local-path-storage.yaml",
              )
              ∷ (
                "Flux release manifest",
                "https://github.com/fluxcd/flux2/releases/download/v" <> flux <> "/install.yaml",
              )
              ∷ ("Helm archive", helm)
              ∷ ("Helm checksum", helm <> ".sha256sum")
              ∷ [])

-- The checks of a list, in order; the first exception that is not caught ends them.
unfoldable pub each_check : {A : Type 0} → (A → Result Check) → List A → Result (List Check)
each_check f [] = ok []
each_check f (x ∷ xs) =
    let rest = each_check f xs in and_then (f x) λ c. and_then rest λ cs. ok (c ∷ cs)

-- A chart of the deploy tree: its release, repository URL, chart and version.
pub record ChartPin : Type 0 where
  pub release : String
  pub url : String
  pub chart : String
  pub version : String

module _ (fetch : String → String → Result String) (token_of : String → Result String)
    (chart_versions : String → String → List String) where
  unfoldable pub check_url : String → String → Result Check
  check_url name url = or_bad name (and_then (fetch url "HEAD") λ _. ok (good name url))

  unfoldable pub check_kubernetes_packages : List (String × String) → Result Check
  check_kubernetes_packages pins = and_then (lookup "kubernetes_minor" pins) λ minor.
      and_then (lookup "kubernetes_deb_version" pins) λ wanted.
        let url = "https://pkgs.k8s.io/core:/stable:/" <> minor <> "/deb/Packages" in
        or_bad "Kubernetes packages" (
          and_then (fetch url "GET")
            λ index. ok (published wanted url (missing_packages wanted index)))

  unfoldable pub check_containerd : List (String × String) → Result Check
  check_containerd pins = and_then (lookup "containerd_deb_version" pins) λ wanted.
      or_bad "containerd" (
        and_then
          (fetch "https://download.docker.com/linux/ubuntu/dists/noble/stable/binary-amd64/Packages"
            "GET")
          λ index. ok (
            if has wanted (debian_package_versions index "containerd.io")
            then good "containerd" ("containerd.io " <> wanted)
            else bad "containerd" ("containerd.io " <> wanted <> " is not published")))

  unfoldable pub check_chart : String → String → String → String → Result Check
  check_chart name url chart version =
      let index_url = drop_end (λ c. c == b'/') url <> "/index.yaml" in
      or_bad (name <> " chart") (
        and_then (fetch index_url "GET") λ index. ok (
          if has version (chart_versions index chart)
          then good (name <> " chart") (chart <> " " <> version <> " in " <> index_url)
          else bad (name <> " chart") (chart <> " " <> version <> " not in " <> index_url)))

  unfoldable pub check_image : String → Result Check
  check_image reference =
      let (name, digest) = name_and_digest reference in
      let (host, repository) = registry_of (untagged name) in
      elim (registry_urls host repository digest) [
        | none ↦
            ok (bad (name <> " image") (reference <> ": registry " <> host <> " is not checked"))
        | some (token_url, manifest_url) ↦ or_bad_image (name <> " image") (
            and_then (fetch token_url "GET") λ answer. and_then (token_of answer) λ token.
              and_then (fetch manifest_url "HEAD") λ _. ok (good (name <> " image") reference))
      ]

  -- `run_checks`, with the charts and the images that the deploy tree pins.
  unfoldable pub run_checks :
      List (String × String) → List ChartPin → List String → Result (List Check)
  run_checks pins charts images = and_then (check_kubernetes_packages pins) λ kubernetes.
      and_then (check_containerd pins) λ containerd.
        and_then (lookup "traefik_chart_version" pins) λ traefik_version.
          and_then
            (check_chart "Traefik" "https://traefik.github.io/charts" "traefik" traefik_version)
            λ traefik. and_then (artifact_urls pins) λ urls.
              and_then (each_check (λ u. check_url u.0 u.1) urls) λ artifacts.
                and_then (each_check (λ p. check_chart p.release p.url p.chart p.version) charts)
                  λ chart_checks. and_then (each_check check_image images) λ image_checks.
                    ok (
                      kubernetes ∷ containerd ∷ traefik ∷ artifacts ++ chart_checks ++ image_checks)

-- The exit status of `main`.
abbrev pub status : List Check → ℕ
status checks = if all (λ c. c.passed) checks then 0 else 1
