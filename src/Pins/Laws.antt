-- ===== src/Pins/Laws.antt =====
-- When the pin of the Kubernetes packages passes.
use mathlib.Core.List.{Memᴰ}
use mathlib.Core.List.Memᴰ
use text.Mathlib.TextEquality.{eq_iff}
use k8s_dr.Prelude.{
  ◌≡◌, ◌↔◌, refl, sym, ap, ◌∙◌, subst, ◌⊎◌, Error, err, String, true, not, List, [], ◌∷◌, Result,
  ok, All, keep, arith, Bool-cases, inl, inr,
}
use k8s_dr.Text.{◌<>◌, ◌=ᵗ◌, splitlines}
use k8s_dr.Inventory.Loads.{and_then-ok}
use k8s_dr.Recovery.Stages.{has}
use k8s_dr.Recovery.Plan.{has-mem, mem-has}
use k8s_dr.Recovery.Commands.{lookup}
use k8s_dr.Pins.{
  Check, stanzas, stanza_fields, version_in, versions_in, published, missing_packages,
  kubernetes_packages, debian_package_versions, check_kubernetes_packages,
}

-- The index has a stanza with this package and this version.
abbrev pub IsPublished : String → String → String → Type 0
IsPublished wanted index package_name =
    (stanza : String) × Memᴰ stanza (stanzas "" index)
    × (lookup "Package" (stanza_fields [] (splitlines stanza)) ≡ ok package_name)
    × (lookup "Version" (stanza_fields [] (splitlines stanza)) ≡ ok wanted)

version_in-fields :
    (package_name : String) (fields : List (String × String)) (v : String)
    → version_in package_name fields ≡ ok v
    → (lookup "Package" fields ≡ ok package_name) × (lookup "Version" fields ≡ ok v)
version_in-fields package_name fields v e =
    let (p, ep, e1) = and_then-ok (lookup "Package" fields) _ v e in
    elim (Bool-cases (p =ᵗ package_name)) [
      | inl same ↦ (ep ∙ ap ok ((eq_iff p package_name).0 same), rw same at e1)
      | inr other ↦ absurd (let k = rw other at e1 in ground arith)
    ]

version_in_of_fields :
    (package_name : String) (fields : List (String × String)) (v : String)
    → lookup "Package" fields ≡ ok package_name
    → lookup "Version" fields ≡ ok v
    → version_in package_name fields ≡ ok v
version_in_of_fields package_name fields v ep ev =
    rw (ep, (eq_iff package_name package_name).1 refl) ev

-- The stanzas of a list that have the package and the version.
abbrev InStanza : String → String → List String → Type 0
InStanza wanted package_name all =
    (stanza : String) × Memᴰ stanza all
    × (lookup "Package" (stanza_fields [] (splitlines stanza)) ≡ ok package_name)
    × (lookup "Version" (stanza_fields [] (splitlines stanza)) ≡ ok wanted)

InStanza-later :
    (wanted package_name stanza : String) (rest : List String)
    → InStanza wanted package_name rest
    → InStanza wanted package_name (stanza ∷ rest)
InStanza-later wanted package_name stanza rest h = (h.0, Memᴰ.tail h.1, h.2, h.3)

result-cases : (r : Result String) → ((v : String) × (r ≡ ok v)) ⊎ ((e : Error) × (r ≡ err e))
result-cases (ok v) = inl (v, refl)
result-cases (err e) = inr (e, refl)

in_head :
    (wanted package_name stanza v : String) (rest : List String)
    → version_in package_name (stanza_fields [] (splitlines stanza)) ≡ ok v
    → (Memᴰ wanted (versions_in package_name rest) → InStanza wanted package_name rest)
    → Memᴰ wanted (v ∷ versions_in package_name rest)
    → InStanza wanted package_name (stanza ∷ rest)
in_head wanted package_name stanza v rest e later (Memᴰ.head p) =
    let h = version_in-fields package_name _ v e in
    (stanza, Memᴰ.head refl, h.0, h.1 ∙ ap ok (sym p))
in_head wanted package_name stanza v rest e later (Memᴰ.tail k) =
    InStanza-later wanted package_name stanza rest (later k)

mem-versions_in :
    (wanted package_name : String) (all : List String)
    → Memᴰ wanted (versions_in package_name all)
    → InStanza wanted package_name all
unfolding versions_in
mem-versions_in wanted package_name [] m = absurd (Memᴰ.not-nil m)
mem-versions_in wanted package_name (stanza ∷ rest) m =
    elim (result-cases (version_in package_name (stanza_fields [] (splitlines stanza)))) [
      | inl (v, e) ↦
          in_head wanted package_name stanza v rest e
            (λ k. mem-versions_in wanted package_name rest k) (rw (e, versions_in) at m)
      | inr (x, e) ↦
          InStanza-later wanted package_name stanza rest
            (mem-versions_in wanted package_name rest (rw (e, versions_in) at m))
    ]

mem-versions_in_of :
    (wanted package_name : String) (all : List String)
    → InStanza wanted package_name all
    → Memᴰ wanted (versions_in package_name all)
unfolding versions_in
mem-versions_in_of wanted package_name [] (found, m, p, v) = absurd (Memᴰ.not-nil m)
mem-versions_in_of wanted package_name (stanza ∷ rest) (found, Memᴰ.head e, p, v) =
    let k : version_in package_name (stanza_fields [] (splitlines stanza)) ≡ ok wanted =
      subst (λ s. version_in package_name (stanza_fields [] (splitlines s)) ≡ ok wanted) e
        (version_in_of_fields package_name _ wanted p v) in
    rw (k, versions_in) (Memᴰ.head refl)
mem-versions_in_of wanted package_name (stanza ∷ rest) (found, Memᴰ.tail m, p, v) =
    let later = mem-versions_in_of wanted package_name rest (found, m, p, v) in
    elim (result-cases (version_in package_name (stanza_fields [] (splitlines stanza)))) [
      | inl (u, e) ↦ rw (e, versions_in) (Memᴰ.tail later)
      | inr (x, e) ↦ rw (e, versions_in) later
    ]

has-IsPublished :
    (wanted index p : String)
    → has wanted (debian_package_versions index p) ≡ true
    → IsPublished wanted index p
unfolding debian_package_versions
has-IsPublished wanted index p h = mem-versions_in wanted p (stanzas "" index) (has-mem _ _ h)

IsPublished-has :
    (wanted index p : String)
    → IsPublished wanted index p
    → has wanted (debian_package_versions index p) ≡ true
unfolding debian_package_versions
IsPublished-has wanted index p h = mem-has _ _ (mem-versions_in_of wanted p (stanzas "" index) h)

keep_none :
    (wanted index : String) (packages : List String)
    → (keep (λ package_name. not (has wanted (debian_package_versions index package_name))) packages
        ≡ [])
      ↔ All (IsPublished wanted index) packages
keep_none wanted index [] = (λ h. tt, λ h. refl)
keep_none wanted index (p ∷ ps) =
    let ih = keep_none wanted index ps in
    elim (Bool-cases (has wanted (debian_package_versions index p))) [
      | inl e ↦ (
        λ h. (has-IsPublished wanted index p e, ih.0 (ground arith)),
        λ h. let k = ih.1 h.1 in ground arith,
      )
      | inr e ↦ (λ h. ground arith, λ h. let k = IsPublished-has wanted index p h.0 in ground arith)
    ]

published-passed :
    (wanted url : String) (ps : List String) → ((published wanted url ps).passed ≡ true) ↔ (ps ≡ [])
published-passed wanted url [] = (λ h. refl, λ h. refl)
published-passed wanted url (p ∷ ps) = (λ h. ground arith, λ h. ground arith)

abbrev pub packages_url : String → String
packages_url minor = "https://pkgs.k8s.io/core:/stable:/" <> minor <> "/deb/Packages"

-- For pins with a minor version and a package version, and an index that is fetched, the check
-- returns a result, and it passes exactly when, for each of kubelet, kubeadm and kubectl, the index has a
-- stanza with that package and the pinned version.
pub check_kubernetes_packages-passed :
    (fetch : String → String → Result String) (token_of : String → Result String)
    (chart_versions : String → String → List String) (pins : List (String × String))
    (minor wanted index : String)
    → lookup "kubernetes_minor" pins ≡ ok minor
    → lookup "kubernetes_deb_version" pins ≡ ok wanted
    → fetch (packages_url minor) "GET" ≡ ok index
    → (c : Check) × (check_kubernetes_packages fetch token_of chart_versions pins ≡ ok c)
      × ((c.passed ≡ true)
          ↔ All (IsPublished wanted index) ("kubelet" ∷ "kubeadm" ∷ "kubectl" ∷ []))
unfolding check_kubernetes_packages
check_kubernetes_packages-passed fetch token_of chart_versions pins minor wanted index hm hw hf =
    let a = published-passed wanted (packages_url minor) (missing_packages wanted index) in
    let b = keep_none wanted index kubernetes_packages in
    (
      published wanted (packages_url minor) (missing_packages wanted index),
      rw (hm, hw, hf) refl,
      (λ h. b.0 (a.0 h), λ h. a.1 (b.1 h)),
    )
