-- ===== src/Manifests/Placed.antt =====
-- What a render that is accepted holds.
use k8s_dr.Prelude.{
  ◌≡◌, refl, sym, ap, ◌∙◌, subst, ◌⊎◌, inl, inr, String, true, false, not, Option, List, [], ◌∷◌,
  ◌++◌, Result, ok, All, map, keep, any, Bool-cases, arith,
}
use k8s_dr.Text.{◌=ᵗ◌, ◌<>◌}
use k8s_dr.Manifests.{
  Document, Render, Kustomization, is_homeless, has_value, has_any, missing_namespaces,
  without_sops_metadata, built, is_flux, is_settings, first_values, checked, render, render_all,
  render_cluster,
}
use k8s_dr.Inventory.Loads.{and_then-ok}
use k8s_dr.Tunnels.Laws.{ok-injective}

no_homeless :
    (ds : List Document)
    → has_any (map (λ d. d.kind <> "/" <> d.name) (keep is_homeless ds)) ≡ false
    → All (λ d. is_homeless d ≡ false) ds
no_homeless [] h = tt
no_homeless (d ∷ ds) h = elim (Bool-cases (is_homeless d)) [
  | inl e ↦ absurd (ground arith)
  | inr e ↦ (e, no_homeless ds (ground arith))
]

no_sops : (ks : List String) → any (λ k. k =ᵗ "sops") (keep (λ k. not (k =ᵗ "sops")) ks) ≡ false
no_sops [] = refl
no_sops (k ∷ ks) = elim (Bool-cases (k =ᵗ "sops")) [
  | inl e ↦ rw e (no_sops ks)
  | inr e ↦ rw (e, e) (no_sops ks)
]

-- No sops key is left in a document.
abbrev pub NoSops : Document → Type 0
NoSops d = any (λ k. k =ᵗ "sops") d.keys ≡ false

-- A document that is cluster-scoped or has a namespace.
abbrev pub IsHome : Document → Type 0
IsHome d = is_homeless d ≡ false

All-without_sops : (ds : List Document) → All NoSops (map without_sops_metadata ds)
All-without_sops [] = tt
All-without_sops (d ∷ ds) = (no_sops d.keys, All-without_sops ds)

All-IsHome : (ds : List Document) → All IsHome ds → All IsHome (map without_sops_metadata ds)
All-IsHome [] h = tt
All-IsHome (d ∷ ds) h = (h.0, All-IsHome ds h.1)

-- The render of a Kustomization that Flux can apply: it has the Kustomization's name and path, no document has a
-- sops key, and the Kustomization has a target namespace or each document needs none or has its own.
pub record IsAccepted (k : Kustomization) (r : Render) : Type 0 where
  pub name : r.name ≡ k.name
  pub path : r.path ≡ k.path
  pub no_sops : All NoSops r.documents
  pub placed : (has_value k.target_namespace ≡ true) ⊎ All IsHome r.documents

missing_namespaces-all :
    (ds : List Document) (target : Option String)
    → has_value target ≡ false
    → missing_namespaces ds target ≡ map (λ d. d.kind <> "/" <> d.name) (keep is_homeless ds)
unfolding missing_namespaces
missing_namespaces-all ds target t = rw t refl

placed_lem :
    (ds : List Document) (target : Option String)
    → has_any (missing_namespaces ds target) ≡ false
    → (has_value target ≡ true) ⊎ All IsHome (map without_sops_metadata ds)
placed_lem ds target m = elim (Bool-cases (has_value target)) [
  | inl t ↦ inl t
  | inr t ↦
      inr
        (All-IsHome ds (no_homeless ds (ap has_any (sym (missing_namespaces-all ds target t)) ∙ m)))
]

checked-IsAccepted :
    (cluster : String) (k : Kustomization) (ds : List Document) (r : Render)
    → checked cluster k ds ≡ ok r
    → IsAccepted k r
unfolding checked
checked-IsAccepted cluster k ds r e =
    elim (Bool-cases (has_any (missing_namespaces ds k.target_namespace))) [
      | inl m ↦ absurd (ground arith)
      | inr m ↦
          let made : Render = record {
            cluster = cluster;
            name = k.name;
            path = k.path;
            documents = map without_sops_metadata ds;
          } in
          let q : made ≡ r = ground arith in
          subst (IsAccepted k) q (record {
            name = refl;
            path = refl;
            no_sops = All-without_sops ds;
            placed = placed_lem ds k.target_namespace m;
          })
    ]

module _ (dump : Document → String) (read : String → Result Document)
    (build : String → Result (List Document)) (spec_of : Document → Result Kustomization)
    (extra_sync : Result (List Document)) where
  -- One accepted render for each document that says a Kustomization, in order.
  abbrev pub Matches : List Document → List Render → Type 0
  Matches [] [] = Unit {0}
  Matches (d ∷ ds) (r ∷ rs) =
      ((k : Kustomization) × (spec_of d ≡ ok k) × IsAccepted k r) × Matches ds rs
  Matches _ _ = ⊥

  -- What `render_cluster` gives: the documents of the root as they were built, and behind them an accepted render of
  -- each Kustomization of the root and of EXTRA_SYNC.
  pub record IsRendered (cluster : String) (renders : List Render) : Type 0 where
    pub root : List Document
    pub extra : List Document
    pub first : Render
    pub others : List Render
    pub built : build ("deploy/clusters/" <> cluster) ≡ ok root
    pub more : extra_sync ≡ ok extra
    pub shape : renders ≡ first ∷ others
    pub unchanged : first.documents ≡ root
    pub matches : Matches (keep (is_flux dump read build) root ++ extra) others

  render_all-Matches :
      (cluster : String) (settings : List (String × String)) (ds : List Document) (rs : List Render)
      → render_all dump read build spec_of extra_sync cluster settings ds ≡ ok rs
      → Matches ds rs
  unfolding render_all render
  render_all-Matches cluster settings [] rs e =
      let q : [] ≡ rs = ground arith in subst (Matches []) q tt
  render_all-Matches cluster settings (d ∷ ds) rs e =
      let (k, ek, e1) = and_then-ok (spec_of d) _ rs e in
      let (r, er, e2) = and_then-ok (render dump read build cluster settings k) _ rs e1 in
      let (later, el, e3) =
        and_then-ok (render_all dump read build spec_of extra_sync cluster settings ds) _ rs e2 in
      let (docs, eb, ec) =
        and_then-ok (built dump read build settings k) (checked cluster k) r er in
      let q : r ∷ later ≡ rs = ground arith in
      subst (Matches (d ∷ ds)) q (
        (k, ek, checked-IsAccepted cluster k docs r ec),
        render_all-Matches cluster settings ds later el,
      )

  -- A cluster that is rendered without an error: its first render holds the documents of the root as they were built,
  -- and each further one belongs to a Kustomization of the root or of EXTRA_SYNC, in order; there no document has a
  -- sops key, and without a target namespace each document is cluster-scoped or has a namespace.
  pub render_cluster-IsRendered :
      (cluster : String) (renders : List Render)
      → render_cluster dump read build spec_of extra_sync cluster ≡ ok renders
      → IsRendered cluster renders
  unfolding render_cluster
  render_cluster-IsRendered cluster renders e =
      let (root, er, e1) = and_then-ok (build ("deploy/clusters/" <> cluster)) _ renders e in
      let (settings, es, e2) =
        and_then-ok (first_values dump read build (keep (is_settings dump read build) root)) _
          renders e1 in
      let (extra, ee, e3) = and_then-ok extra_sync _ renders e2 in
      let (others, eo, e4) =
        and_then-ok
          (render_all dump read build spec_of extra_sync cluster settings
            (keep (is_flux dump read build) root ++ extra))
          _ renders e3 in
      record {
        root = root;
        extra = extra;
        first = record {
          cluster = cluster;
          name = "flux-system";
          path = "deploy/clusters/" <> cluster;
          documents = root;
        };
        others = others;
        built = er;
        more = ee;
        shape = sym (ok-injective e4);
        unchanged = refl;
        matches = render_all-Matches cluster settings _ others eo;
      }
