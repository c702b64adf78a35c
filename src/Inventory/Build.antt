-- ===== src/Inventory/Build.antt =====
-- scripts/prepare_ansible_inventory.py: build_inventory. POD_CIDR and SERVICE_CIDR are parameters, which the
-- script reads from the variables of Ansible.
use k8s_dr.Prelude.{
  ℕ, ◌/◌, ◌%◌, String, Bool, true, false, not, Option, none, some, List, [], ◌∷◌, value_error,
  Result, Done, ok, err, any, keep, ltb, if◌then◌else◌,
}
use k8s_dr.Text.{◌=ᵗ◌, ◌<>◌, empty, strip, join}
use k8s_dr.Text.Decimal.{show}
use k8s_dr.Report.{and_then}
use k8s_dr.Tunnels.{Value, Metadata, Group}
use k8s_dr.Inventory.Networks.{Network, Address, Six, ip_network, ip_address, inside, overlaps}

-- The value of an output of Terraform: a text, a number, an object whose fields are texts or not, or anything else.
pub data OutputValue : Type 0 where
  text : String → OutputValue
  number : ℕ → OutputValue
  roles : List (String × Option String) → OutputValue
  other : OutputValue

-- `none` is an output that is no object with a value.
abbrev pub Outputs : Type 0
Outputs = List (String × Option OutputValue)

unfoldable pub find : {A : Type 0} → String → List (String × A) → Option A
find name [] = none
find name ((k, v) ∷ rest) = if k =ᵗ name then some v else find name rest

abbrev pub is_missing : Outputs → String → Bool
is_missing outputs name = elim (find name outputs) [ none ↦ true | some _ ↦ false ]

-- REQUIRED_OUTPUTS.
abbrev pub required_outputs : List String
required_outputs = "project_id" ∷ "zone" ∷ "subnet_cidr" ∷ "instance_names" ∷ "internal_ips" ∷ []

-- `_output_value`.
abbrev pub value_of : String → Option (Option OutputValue) → Result OutputValue
value_of name (some (some value)) = ok value
value_of name _ = err (value_error ("missing Terraform output value: " <> name))

abbrev pub output_value : Outputs → String → Result OutputValue
output_value outputs name = value_of name (find name outputs)

abbrev pub role_text : String → String → Option (Option String) → Result String
role_text output_name role (some (some value)) =
    if empty (strip value)
    then err (value_error ("Terraform output " <> output_name <> " is missing role: " <> role))
    else ok value
role_text output_name role _ =
    err (value_error ("Terraform output " <> output_name <> " is missing role: " <> role))

-- `_role_value`.
abbrev pub role_value : OutputValue → String → String → Result String
role_value (OutputValue.roles values) output_name role =
    role_text output_name role (find role values)
role_value _ output_name role =
    err (value_error ("Terraform output " <> output_name <> " must be a role map"))

abbrev pub need_text : String → String → Result Done
need_text problem t = if empty (strip t) then err (value_error problem) else ok tt

-- The checks of project_id and zone.
abbrev pub full_text : String → OutputValue → Result String
full_text name (OutputValue.text t) =
    if empty (strip t) then err (value_error (name <> " must be a nonempty string")) else ok t
full_text name _ = err (value_error (name <> " must be a nonempty string"))

abbrev pub or_invalid : Option Network → Result Network
or_invalid (some n) = ok n
or_invalid none = err (value_error "subnet_cidr must be a valid network CIDR")

-- A number is the one address that it names.
abbrev pub subnet_of : Six → OutputValue → Result Network
subnet_of ip6 (OutputValue.text t) = or_invalid (ip_network ip6 t)
subnet_of ip6 (OutputValue.number n) =
    if ltb n 340282366920938463463374607431768211456
    then ok (record { six = not (ltb n 4294967296); base = n; size = 1 })
    else or_invalid none
subnet_of ip6 _ = or_invalid none

abbrev pub check_overlap : Network → Network → Result Done
check_overlap left right =
    if overlaps left right then err (value_error "cluster and VPC networks overlap") else ok tt

-- The loop over the three pairs.
unfoldable pub check_networks : Network → Network → Network → Result Done
check_networks vpc pod service =
    and_then (check_overlap vpc pod)
      λ _. and_then (check_overlap vpc service) λ _. check_overlap pod service

abbrev pub checked_address : String → Network → Option Address → Result Address
checked_address role vpc none =
    err (value_error ("internal_ips contains an invalid " <> role <> " address"))
checked_address role vpc (some a) =
    if inside a vpc then ok a else err (value_error (role <> " address is outside subnet_cidr"))

abbrev pub node_address : Six → String → Network → String → Result Address
node_address ip6 role vpc t = checked_address role vpc (ip_address ip6 t)

-- One entry of `hosts`.
pub record Host : Type 0 where
  pub ansible_port : ℕ
  pub node_internal_ip : String
  pub gcp_instance_name : String
  pub gcp_project : String
  pub gcp_zone : String

abbrev pub dotted : ℕ → String
dotted n =
    show (n / 16777216)
    <> "."
    <> show (n / 65536 % 256)
    <> "."
    <> show (n / 256 % 256)
    <> "."
    <> show (n % 256)

-- `str(address)`.
abbrev pub address_text : Six → Address → String
address_text ip6 a = if a.six then ip6.show_address a.value else dotted a.value

-- The inventory that is returned.
pub record Inventory : Type 0 where
  pub ansible_user : String
  pub private_key_file : String
  pub control_plane : Host
  pub worker : Host

abbrev pub metadata_of : Host → Metadata
metadata_of h =
    ("ansible_host", Value.text "127.0.0.1")
    ∷ ("ansible_port", Value.number h.ansible_port)
    ∷ ("node_internal_ip", Value.text h.node_internal_ip)
    ∷ ("gcp_instance_name", Value.text h.gcp_instance_name)
    ∷ ("gcp_project", Value.text h.gcp_project)
    ∷ ("gcp_zone", Value.text h.gcp_zone)
    ∷ []

-- `all.children`, as scripts/run_with_iap.py reads it.
abbrev pub children : Inventory → List (String × Group)
children i =
    ("kube_control_plane", Group.hosts (("control-plane", some (metadata_of i.control_plane)) ∷ []))
    ∷ ("kube_workers", Group.hosts (("worker", some (metadata_of i.worker)) ∷ []))
    ∷ ("kube_cluster", Group.no_hosts)
    ∷ []

-- LOCAL_PORTS.
abbrev pub control_plane_port : ℕ
control_plane_port = 2201

abbrev pub worker_port : ℕ
worker_port = 2202

module _ (ip6 : Six) (pod service : Network) where
  -- One round of the loop over LOCAL_PORTS.
  unfoldable pub host_of :
      Network → String → String → OutputValue → OutputValue → String → ℕ → Result Host
  host_of vpc project zone names addresses role port =
      and_then (role_value names "instance_names" role) λ name.
        and_then (role_value addresses "internal_ips" role) λ address_text'.
          and_then (node_address ip6 role vpc address_text') λ address. ok (record {
            ansible_port = port;
            node_internal_ip = address_text ip6 address;
            gcp_instance_name = name;
            gcp_project = project;
            gcp_zone = zone;
          })

  abbrev distinct : String → String → Host → Host → Result Inventory
  distinct user key cp worker =
      if cp.node_internal_ip =ᵗ worker.node_internal_ip
      then err (value_error "control-plane and worker addresses must be distinct")
      else ok (record {
        ansible_user = strip user;
        private_key_file = key;
        control_plane = cp;
        worker = worker;
      })

  -- The hosts, behind the checks of the networks.
  unfoldable pub hosts_in : Network → Outputs → String → String → Result Inventory
  unfolding host_of
  hosts_in vpc outputs user key = and_then (output_value outputs "project_id") λ project_value.
      and_then (output_value outputs "zone") λ zone_value.
        and_then (full_text "project_id" project_value) λ project.
          and_then (full_text "zone" zone_value) λ zone.
            and_then (output_value outputs "instance_names") λ names.
              and_then (output_value outputs "internal_ips") λ addresses.
                and_then
                  (host_of vpc project zone names addresses "control-plane" control_plane_port)
                  λ cp.
                    and_then (host_of vpc project zone names addresses "worker" worker_port)
                      λ worker. distinct user key cp worker

  -- Behind the check that no output is missing.
  unfoldable pub with_outputs : Outputs → String → String → Result Inventory
  unfolding hosts_in check_networks
  with_outputs outputs user key = and_then (need_text "SSH user must not be empty" user) λ _.
      and_then (need_text "SSH private key path must not be empty" key) λ _.
        and_then (output_value outputs "subnet_cidr") λ subnet.
          and_then (subnet_of ip6 subnet)
            λ vpc. and_then (check_networks vpc pod service) λ _. hosts_in vpc outputs user key

  -- `build_inventory`.
  unfoldable pub build_inventory : Outputs → String → String → Result Inventory
  build_inventory outputs user key =
      if any (is_missing outputs) required_outputs
      then err (
          value_error (
            "missing Terraform outputs: "
            <> join ", " (keep (is_missing outputs) required_outputs)))
      else with_outputs outputs user key
