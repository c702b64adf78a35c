-- ===== src/Inventory/Loads.antt =====
-- What an inventory that build_inventory returns gives to the tunnels, and which addresses it holds.
use k8s_dr.Prelude.{
  ℕ, ◌≡◌, refl, sym, subst, String, true, false, Option, none, some, [], ◌∷◌, Result, ok, err, any,
  arith, Bool-cases, inl, inr,
}
use k8s_dr.Text.{◌=ᵗ◌, empty, strip}
use k8s_dr.Report.{and_then}
use k8s_dr.Tunnels.Laws.{IsText, ok-injective}
use k8s_dr.Tunnels.{Target, load_targets, targets_of, group_target, find_group, target_of, field}
use k8s_dr.Inventory.Networks.{Network, Address, Six, ip_address, inside, overlaps}
use k8s_dr.Inventory.Build.{
  OutputValue, Outputs, Host, Inventory, role_value, full_text, role_text, checked_address,
  need_text, subnet_of, check_networks, node_address, address_text, children, metadata_of, host_of,
  hosts_in, with_outputs, build_inventory, output_value, is_missing, required_outputs,
  control_plane_port, worker_port,
}

-- What a chain that returned has computed first.
pub and_then-ok :
    {A B : Type 0} (r : Result A) (f : A → Result B) (b : B)
    → and_then r f ≡ ok b
    → (a : A) × (r ≡ ok a) × (f a ≡ ok b)
and_then-ok (ok a) f b e = (a, refl, e)
and_then-ok (err x) f b e = absurd (ground arith)

full_text-IsText :
    (name : String) (v : OutputValue) (t : String) → full_text name v ≡ ok t → IsText t
full_text-IsText name (OutputValue.text u) t e = elim (Bool-cases (empty (strip u))) [
  | inl b ↦ absurd (ground arith)
  | inr b ↦ let q : u ≡ t = ground arith in subst IsText q b
]
full_text-IsText name (OutputValue.number n) t e = absurd (ground arith)
full_text-IsText name (OutputValue.roles rs) t e = absurd (ground arith)
full_text-IsText name OutputValue.other t e = absurd (ground arith)

role_text-IsText :
    (name role : String) (found : Option (Option String)) (t : String)
    → role_text name role found ≡ ok t
    → IsText t
role_text-IsText name role none t e = absurd (ground arith)
role_text-IsText name role (some none) t e = absurd (ground arith)
role_text-IsText name role (some (some u)) t e = elim (Bool-cases (empty (strip u))) [
  | inl b ↦ absurd (ground arith)
  | inr b ↦ let q : u ≡ t = ground arith in subst IsText q b
]

role_value-IsText :
    (v : OutputValue) (name role t : String) → role_value v name role ≡ ok t → IsText t
role_value-IsText (OutputValue.roles values) name role t e = role_text-IsText name role _ t e
role_value-IsText (OutputValue.text u) name role t e = absurd (ground arith)
role_value-IsText (OutputValue.number n) name role t e = absurd (ground arith)
role_value-IsText OutputValue.other name role t e = absurd (ground arith)

node_address-inside :
    (ip6 : Six) (role : String) (vpc : Network) (t : String) (a : Address)
    → node_address ip6 role vpc t ≡ ok a
    → inside a vpc ≡ true
node_address-inside ip6 role vpc t a e = found (ip_address ip6 t) e
  where
    found : (o : Option Address) → checked_address role vpc o ≡ ok a → inside a vpc ≡ true
    found none e = absurd (ground arith)
    found (some b) e = elim (Bool-cases (inside b vpc)) [
      | inl h ↦ let q : b ≡ a = ground arith in subst (λ x. inside x vpc ≡ true) q h
      | inr h ↦ absurd (ground arith)
    ]

-- A host with this port, project and zone, whose address is the text of one in the network.
abbrev pub IsPlaced : Six → Network → String → String → ℕ → Host → Type 0
IsPlaced ip6 vpc project zone port h =
    (h.ansible_port ≡ port)
    × (h.gcp_project ≡ project)
    × (h.gcp_zone ≡ zone)
    × IsText h.gcp_instance_name
    × (a : Address) × (inside a vpc ≡ true)
    × (h.node_internal_ip ≡ address_text ip6 a)

-- The target of a host.
abbrev pub target_at : String → ℕ → Host → Target
target_at role port h = record {
  role = role;
  instance_name = h.gcp_instance_name;
  project = h.gcp_project;
  zone = h.gcp_zone;
  local_port = port;
}

module _ (ip6 : Six) (pod service : Network) where
  host_of-IsPlaced :
      (vpc : Network) (project zone : String) (names addresses : OutputValue) (role : String)
      (port : ℕ) (h : Host)
      → host_of ip6 pod service vpc project zone names addresses role port ≡ ok h
      → IsPlaced ip6 vpc project zone port h
  unfolding host_of
  host_of-IsPlaced vpc project zone names addresses role port h e =
      let (name, en, e1) = and_then-ok (role_value names "instance_names" role) _ h e in
      let (t, et, e2) = and_then-ok (role_value addresses "internal_ips" role) _ h e1 in
      let (a, ea, e3) = and_then-ok (node_address ip6 role vpc t) _ h e2 in
      subst (IsPlaced ip6 vpc project zone port) (ok-injective e3) (
        refl,
        refl,
        refl,
        role_value-IsText names "instance_names" role name en,
        a,
        node_address-inside ip6 role vpc t a ea,
        refl,
      )

  -- What holds of an inventory over this network.
  abbrev IsBuilt : Network → Inventory → Type 0
  IsBuilt vpc i =
      (project : String) × (zone : String) × IsText project
      × IsText zone
      × IsPlaced ip6 vpc project zone control_plane_port i.control_plane
      × IsPlaced ip6 vpc project zone worker_port i.worker
      × ((i.control_plane.node_internal_ip =ᵗ i.worker.node_internal_ip) ≡ false)

  hosts_in-IsBuilt :
      (vpc : Network) (outputs : Outputs) (user key : String) (i : Inventory)
      → hosts_in ip6 pod service vpc outputs user key ≡ ok i
      → IsBuilt vpc i
  unfolding hosts_in
  hosts_in-IsBuilt vpc outputs user key i e =
      let (pv, epv, e1) = and_then-ok (output_value outputs "project_id") _ i e in
      let (zv, ezv, e2) = and_then-ok (output_value outputs "zone") _ i e1 in
      let (project, ep, e3) = and_then-ok (full_text "project_id" pv) _ i e2 in
      let (zone, ez, e4) = and_then-ok (full_text "zone" zv) _ i e3 in
      let (names, en, e5) = and_then-ok (output_value outputs "instance_names") _ i e4 in
      let (addresses, ea, e6) = and_then-ok (output_value outputs "internal_ips") _ i e5 in
      let (cp, ec, e7) =
        and_then-ok
          (host_of ip6 pod service vpc project zone names addresses "control-plane"
            control_plane_port)
          _ i e6 in
      let (worker, ew, e8) =
        and_then-ok (host_of ip6 pod service vpc project zone names addresses "worker" worker_port)
          _ i e7 in
      elim (Bool-cases (cp.node_internal_ip =ᵗ worker.node_internal_ip)) [
        | inl same ↦ absurd (ground arith)
        | inr other ↦
            let made : Inventory = record {
              ansible_user = strip user;
              private_key_file = key;
              control_plane = cp;
              worker = worker;
            } in
            let q : made ≡ i = ground arith in
            subst (IsBuilt vpc) q (
              project,
              zone,
              full_text-IsText "project_id" pv project ep,
              full_text-IsText "zone" zv zone ez,
              host_of-IsPlaced vpc project zone names addresses "control-plane" control_plane_port
                  cp ec,
              host_of-IsPlaced vpc project zone names addresses "worker" worker_port worker ew,
              other,
            )
      ]

  -- The networks that were compared.
  check_networks-apart :
      (vpc : Network)
      → check_networks vpc pod service ≡ ok tt
      → (overlaps vpc pod ≡ false) × (overlaps vpc service ≡ false) × (overlaps pod service ≡ false)
  unfolding check_networks
  check_networks-apart vpc e = elim (Bool-cases (overlaps vpc pod)) [
    | inl a ↦ absurd (ground arith)
    | inr a ↦ elim (Bool-cases (overlaps vpc service)) [
      | inl b ↦ absurd (ground arith)
      | inr b ↦ elim (Bool-cases (overlaps pod service)) [
        | inl c ↦ absurd (ground arith)
        | inr c ↦ (a, b, c)
      ]
    ]
  ]

  with_outputs-IsBuilt :
      (outputs : Outputs) (user key : String) (i : Inventory)
      → with_outputs ip6 pod service outputs user key ≡ ok i
      → (vpc : Network) × (check_networks vpc pod service ≡ ok tt) × IsBuilt vpc i
  unfolding with_outputs
  with_outputs-IsBuilt outputs user key i e =
      let (u, eu, e1) = and_then-ok (need_text "SSH user must not be empty" user) _ i e in
      let (k, ek, e2) =
        and_then-ok (need_text "SSH private key path must not be empty" key) _ i e1 in
      let (subnet, es, e3) = and_then-ok (output_value outputs "subnet_cidr") _ i e2 in
      let (vpc, ev, e4) = and_then-ok (subnet_of ip6 subnet) _ i e3 in
      let (c, ec, e5) = and_then-ok (check_networks vpc pod service) _ i e4 in
      (vpc, ec, hosts_in-IsBuilt vpc outputs user key i e5)

  build_inventory-IsBuilt :
      (outputs : Outputs) (user key : String) (i : Inventory)
      → build_inventory ip6 pod service outputs user key ≡ ok i
      → (vpc : Network) × (check_networks vpc pod service ≡ ok tt) × IsBuilt vpc i
  unfolding build_inventory
  build_inventory-IsBuilt outputs user key i e =
      elim (Bool-cases (any (is_missing outputs) required_outputs)) [
        | inl missing ↦ absurd (ground arith)
        | inr none_missing ↦ with_outputs-IsBuilt outputs user key i (ground arith)
      ]

  -- An inventory that is built has its two nodes inside one network that overlaps neither the pods' nor the
  -- services' network, with the addresses written in different ways and without blank names.
  pub build_inventory-IsPlaced :
      (outputs : Outputs) (user key : String) (i : Inventory)
      → build_inventory ip6 pod service outputs user key ≡ ok i
      → (vpc : Network) × (overlaps vpc pod ≡ false)
        × (overlaps vpc service ≡ false)
        × (a : Address) × (b : Address) × (inside a vpc ≡ true)
        × (inside b vpc ≡ true)
        × (i.control_plane.node_internal_ip ≡ address_text ip6 a)
        × (i.worker.node_internal_ip ≡ address_text ip6 b)
        × ((i.control_plane.node_internal_ip =ᵗ i.worker.node_internal_ip) ≡ false)
  build_inventory-IsPlaced outputs user key i e =
      let (vpc, c, built) = build_inventory-IsBuilt outputs user key i e in
      let (project, zone, hp, hz, cp, worker, other) = built in
      let (apart_pod, apart_service, rest) = check_networks-apart vpc c in
      let (p1, p2, p3, p4, a, ia, ta) = cp in
      let (w1, w2, w3, w4, b, ib, tb) = worker in
      (vpc, apart_pod, apart_service, a, b, ia, ib, ta, tb, other)

  IsPlaced-control_plane :
      (vpc : Network) (project zone : String) (h : Host)
      → IsText project
      → IsText zone
      → IsPlaced ip6 vpc project zone 2201 h
      → target_of "control-plane" (some (metadata_of h)) ≡ ok (target_at "control-plane" 2201 h)
  unfolding target_of field
  IsPlaced-control_plane vpc project zone h hp hz p =
      let (port, ep, ez, name, a, ia, ta) = p in
      let tp : IsText h.gcp_project = subst IsText (sym ep) hp in
      let tz : IsText h.gcp_zone = subst IsText (sym ez) hz in rw (port, name, tp, tz) refl

  IsPlaced-worker :
      (vpc : Network) (project zone : String) (h : Host)
      → IsText project
      → IsText zone
      → IsPlaced ip6 vpc project zone 2202 h
      → target_of "worker" (some (metadata_of h)) ≡ ok (target_at "worker" 2202 h)
  unfolding target_of field
  IsPlaced-worker vpc project zone h hp hz p =
      let (port, ep, ez, name, a, ia, ta) = p in
      let tp : IsText h.gcp_project = subst IsText (sym ep) hp in
      let tz : IsText h.gcp_zone = subst IsText (sym ez) hz in rw (port, name, tp, tz) refl

  -- scripts/run_with_iap.py accepts every inventory that is built, and gives its two hosts the ports 2201 and 2202.
  pub load_targets-build_inventory :
      (outputs : Outputs) (user key : String) (i : Inventory)
      → build_inventory ip6 pod service outputs user key ≡ ok i
      → load_targets (some (children i))
        ≡ ok
            (target_at "control-plane" 2201 i.control_plane ∷ target_at "worker" 2202 i.worker ∷ [])
  unfolding load_targets targets_of group_target find_group
  load_targets-build_inventory outputs user key i e =
      let (vpc, c, built) = build_inventory-IsBuilt outputs user key i e in
      let (project, zone, hp, hz, cp, worker, other) = built in
      rw
        (
          IsPlaced-control_plane vpc project zone i.control_plane hp hz cp,
          IsPlaced-worker vpc project zone i.worker hp hz worker,
        )
        refl
