-- ===== src/Examples/Pinned.antt =====
-- A package index and its check.
use k8s_dr.Prelude.{◌≡◌, ◌↔◌, refl, String, true, List, [], ◌∷◌, Result, ok, All}
use k8s_dr.Recovery.Commands.{lookup}
use k8s_dr.Pins.{Check, check_kubernetes_packages}
use k8s_dr.Pins.Laws.{IsPublished, check_kubernetes_packages-passed}

abbrev index : String
index =
    "Package: kubelet\nVersion: 1.35.1-1.1\n\nPackage: kubeadm\nVersion: 1.35.1-1.1\n\nPackage: kubectl\nVersion: 1.35.1-1.1\n"

abbrev fetch_index : String → String → Result String
fetch_index url method = ok index

abbrev no_token : String → Result String
no_token answer = ok "t"

abbrev no_charts : String → String → List String
no_charts text chart = []

abbrev pins : List (String × String)
pins = ("kubernetes_minor", "v1.35") ∷ ("kubernetes_deb_version", "1.35.1-1.1") ∷ []

minor_pinned : lookup "kubernetes_minor" pins ≡ ok "v1.35"
unfolding lookup
minor_pinned = refl

version_pinned : lookup "kubernetes_deb_version" pins ≡ ok "1.35.1-1.1"
unfolding lookup
version_pinned = refl

check_kubernetes_packages-passed_example :
    (c : Check) × (check_kubernetes_packages fetch_index no_token no_charts pins ≡ ok c)
    × ((c.passed ≡ true)
        ↔ All (IsPublished "1.35.1-1.1" index) ("kubelet" ∷ "kubeadm" ∷ "kubectl" ∷ []))
check_kubernetes_packages-passed_example =
    check_kubernetes_packages-passed fetch_index no_token no_charts pins "v1.35" "1.35.1-1.1" index
      minor_pinned version_pinned refl
