-- ===== src/Tunnels/Laws.antt =====
-- What scripts/run_with_iap.py knows of the targets that it goes on with.
use k8s_dr.Prelude.{
  ℕ, ◌≤◌, ◌≡◌, refl, ap, subst, ◌∙◌, String, false, Option, none, some, List, [], ◌∷◌, Result, Done,
  ok, err, All, leb, ◌&&◌, arith, Bool-cases, inl, inr, map,
}
use k8s_dr.Text.{◌=ᵗ◌, empty, strip}
use k8s_dr.Report.{and_then}
use k8s_dr.Tunnels.{
  Value, Metadata, Group, Target, field, check_fields, check_loopback, port_of, text_of, target_of,
  group_target, find_group, targets_of, load_targets,
}

abbrev pub IsText : String → Type 0
IsText t = empty (strip t) ≡ false

-- A target that the tunnels can use.
abbrev pub IsUsable : Target → Type 0
IsUsable t =
    (1024 ≤ t.local_port)
    × (t.local_port ≤ 65535)
    × IsText t.instance_name
    × IsText t.project
    × IsText t.zone

pub ok-injective {ℓ} : {A : Type ℓ} {a b : A} → ok a ≡ ok b → a ≡ b
ok-injective h = ground arith

port_of-range :
    (role : String) (v : Option Value) (p : ℕ) → port_of role v ≡ ok p → (1024 ≤ p) × (p ≤ 65535)
port_of-range role none p h = ground arith
port_of-range role (some (Value.text t)) p h = ground arith
port_of-range role (some Value.other) p h = ground arith
port_of-range role (some (Value.number n)) p h = elim (Bool-cases (leb 1024 n && leb n 65535)) [
  | inl c ↦ let e : n ≡ p = ground arith in subst (λ k. (1024 ≤ k) × (k ≤ 65535)) e (ground arith)
  | inr c ↦ ground arith
]

text_of-IsText : (role : String) (v : Option Value) (t : String) → text_of role v ≡ ok t → IsText t
text_of-IsText role none t h = ground arith
text_of-IsText role (some (Value.number n)) t h = ground arith
text_of-IsText role (some Value.other) t h = ground arith
text_of-IsText role (some (Value.text s)) t h = elim (Bool-cases (empty (strip s))) [
  | inl c ↦ ground arith
  | inr c ↦ let e : s ≡ t = ground arith in subst IsText e c
]

-- `target_of` over the results of its six checks.
abbrev joined :
    String
    → Result Done
    → Result Done
    → Result ℕ
    → Result String
    → Result String
    → Result String
    → Result Target
joined role a b p i j z = and_then a λ _. and_then b λ _. and_then p λ port.
    and_then i λ instance_name. and_then j λ project. and_then z λ zone. ok (record {
      role = role;
      instance_name = instance_name;
      project = project;
      zone = zone;
      local_port = port;
    })

joined-IsUsable :
    (role : String) (a b : Result Done) (p : Result ℕ) (i j z : Result String) (t : Target)
    → ((n : ℕ) → p ≡ ok n → (1024 ≤ n) × (n ≤ 65535))
    → ((s : String) → i ≡ ok s → IsText s)
    → ((s : String) → j ≡ ok s → IsText s)
    → ((s : String) → z ≡ ok s → IsText s)
    → joined role a b p i j z ≡ ok t
    → IsUsable t × (t.role ≡ role)
joined-IsUsable role (err e) b p i j z t hp hi hj hz h = ground arith
joined-IsUsable role (ok _) (err e) p i j z t hp hi hj hz h = ground arith
joined-IsUsable role (ok _) (ok _) (err e) i j z t hp hi hj hz h = ground arith
joined-IsUsable role (ok _) (ok _) (ok n) (err e) j z t hp hi hj hz h = ground arith
joined-IsUsable role (ok _) (ok _) (ok n) (ok x) (err e) z t hp hi hj hz h = ground arith
joined-IsUsable role (ok _) (ok _) (ok n) (ok x) (ok y) (err e) t hp hi hj hz h = ground arith
joined-IsUsable role (ok _) (ok _) (ok n) (ok x) (ok y) (ok w) t hp hi hj hz h =
    let r = hp n refl in
    subst (λ (t : Target). IsUsable t × (t.role ≡ role)) (ok-injective h)
      ((r.0, r.1, hi x refl, hj y refl, hz w refl), refl)

target_of-IsUsable :
    (role : String) (metadata : Option Metadata) (t : Target)
    → target_of role metadata ≡ ok t
    → IsUsable t × (t.role ≡ role)
unfolding target_of
target_of-IsUsable role none t h = ground arith
target_of-IsUsable role (some m) t h =
    joined-IsUsable role (check_fields role m) (check_loopback role (field "ansible_host" m))
      (port_of role (field "ansible_port" m)) (text_of role (field "gcp_instance_name" m))
      (text_of role (field "gcp_project" m)) (text_of role (field "gcp_zone" m)) t
      (port_of-range role (field "ansible_port" m))
      (text_of-IsText role (field "gcp_instance_name" m))
      (text_of-IsText role (field "gcp_project" m)) (text_of-IsText role (field "gcp_zone" m)) h

group_target-IsUsable :
    (group role : String) (g : Group) (t : Target)
    → group_target group role g ≡ ok t
    → IsUsable t × (t.role ≡ role)
unfolding group_target
group_target-IsUsable group role Group.no_hosts t h = ground arith
group_target-IsUsable group role Group.not_an_object t h = ground arith
group_target-IsUsable group role (Group.hosts []) t h = ground arith
group_target-IsUsable group role (Group.hosts (x ∷ y ∷ hs)) t h = ground arith
group_target-IsUsable group role (Group.hosts ((name, metadata) ∷ [])) t h =
    elim (Bool-cases (name =ᵗ role)) [
      | inl c ↦ target_of-IsUsable role metadata t (ground arith)
      | inr c ↦ ground arith
    ]

two-IsUsable :
    (a b : Result Target) (ts : List Target)
    → ((t : Target) → a ≡ ok t → IsUsable t × (t.role ≡ "control-plane"))
    → ((t : Target) → b ≡ ok t → IsUsable t × (t.role ≡ "worker"))
    → (and_then a
        λ t. and_then (and_then b λ u. and_then (ok []) λ us. ok (u ∷ us)) λ ts. ok (t ∷ ts))
      ≡ ok ts
    → All IsUsable ts × (map (λ t. t.role) ts ≡ "control-plane" ∷ "worker" ∷ [])
two-IsUsable (err e) b ts ha hb h = ground arith
two-IsUsable (ok t) (err e) ts ha hb h = ground arith
two-IsUsable (ok t) (ok u) ts ha hb h =
    let ht = ha t refl in
    let hu = hb u refl in
    subst (λ ts. All IsUsable ts × (map (λ t. t.role) ts ≡ "control-plane" ∷ "worker" ∷ []))
      (ok-injective h)
      ((ht.0, (hu.0, tt)), ap (λ r. r ∷ u.role ∷ []) ht.1 ∙ ap (λ r. "control-plane" ∷ r ∷ []) hu.1)

-- The targets that an inventory gives are one control plane and one worker, in this order, each with
-- a port from 1024 to 65535 and texts that are not blank.
pub load_targets-IsUsable :
    (children : Option (List (String × Group))) (ts : List Target)
    → load_targets children ≡ ok ts
    → All IsUsable ts × (map (λ t. t.role) ts ≡ "control-plane" ∷ "worker" ∷ [])
unfolding load_targets targets_of
load_targets-IsUsable none ts h = ground arith
load_targets-IsUsable (some children) ts h =
    two-IsUsable
      (group_target "kube_control_plane" "control-plane" (find_group "kube_control_plane" children))
      (group_target "kube_workers" "worker" (find_group "kube_workers" children)) ts
      (λ t e. group_target-IsUsable "kube_control_plane" "control-plane" _ t e)
      (λ t e. group_target-IsUsable "kube_workers" "worker" _ t e) h
