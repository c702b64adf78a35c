-- ===== src/Tunnels.antt =====
-- scripts/run_with_iap.py: the targets that an inventory gives, and their local ports. The inventory is given
-- decoded: a group is missing, holds no object, or holds its hosts with their fields.
pub mod Laws
pub mod Session
pub mod Reaping
pub mod Waiting
use k8s_dr.Prelude.{
  ℕ, String, Bool, true, false, not, ◌&&◌, ◌||◌, Option, none, some, List, [], ◌∷◌, Error,
  value_error, runtime_error, Result, Done, ok, err, any, leb, ◌==◌, if◌then◌else◌, map, Exec,
  raise_if, pure, ◌>>=◌, ◌>>◌, for_each, lift,
}
use k8s_dr.Text.{◌=ᵗ◌, ◌<>◌, empty, strip}
use k8s_dr.Text.Decimal.{show}
use k8s_dr.Report.{and_then}

pub data Value : Type 0 where
  text : String → Value
  number : ℕ → Value
  other : Value

abbrev pub Metadata : Type 0
Metadata = List (String × Value)

pub data Group : Type 0 where
  no_hosts not_an_object : Group
  hosts : List (String × Option Metadata) → Group

pub record Target : Type 0 where
  pub role : String
  pub instance_name : String
  pub project : String
  pub zone : String
  pub local_port : ℕ

unfoldable pub field : String → Metadata → Option Value
field key [] = none
field key ((k, v) ∷ rest) = if k =ᵗ key then some v else field key rest

abbrev pub has_field : Metadata → String → Bool
has_field metadata key = elim (field key metadata) [ none ↦ false | some _ ↦ true ]

abbrev pub required : List String
required = "ansible_host" ∷ "ansible_port" ∷ "gcp_instance_name" ∷ "gcp_project" ∷ "gcp_zone" ∷ []

-- `if missing: raise`.
abbrev pub check_fields : String → Metadata → Result Done
check_fields role metadata =
    if any (λ key. not (has_field metadata key)) required
    then err (value_error ("inventory host " <> role <> " is missing fields"))
    else ok tt

abbrev pub check_loopback : String → Option Value → Result Done
check_loopback role (some (Value.text host)) =
    if host =ᵗ "127.0.0.1"
    then ok tt
    else err (value_error ("inventory host " <> role <> " must use the IPv4 loopback address"))
check_loopback role _ =
    err (value_error ("inventory host " <> role <> " must use the IPv4 loopback address"))

abbrev pub port_of : String → Option Value → Result ℕ
port_of role (some (Value.number port)) =
    if leb 1024 port && leb port 65535
    then ok port
    else err (value_error ("inventory host " <> role <> " port must be between 1024 and 65535"))
port_of role _ =
    err (value_error ("inventory host " <> role <> " port must be between 1024 and 65535"))

abbrev pub text_of : String → Option Value → Result String
text_of role (some (Value.text t)) =
    if empty (strip t)
    then err (value_error ("inventory host " <> role <> " has an invalid field"))
    else ok t
text_of role _ = err (value_error ("inventory host " <> role <> " has an invalid field"))

unfoldable pub target_of : String → Option Metadata → Result Target
target_of role none = err (value_error ("inventory metadata for " <> role <> " must be an object"))
target_of role (some metadata) = and_then (check_fields role metadata) λ _.
    and_then (check_loopback role (field "ansible_host" metadata)) λ _.
      and_then (port_of role (field "ansible_port" metadata)) λ port.
        and_then (text_of role (field "gcp_instance_name" metadata)) λ instance_name.
          and_then (text_of role (field "gcp_project" metadata)) λ project.
            and_then (text_of role (field "gcp_zone" metadata)) λ zone. ok (record {
              role = role;
              instance_name = instance_name;
              project = project;
              zone = zone;
              local_port = port;
            })

unfoldable pub find_group : String → List (String × Group) → Group
find_group name [] = Group.no_hosts
find_group name ((k, g) ∷ rest) = if k =ᵗ name then g else find_group name rest

-- The one host of a group: a JSON object has each key once.
unfoldable pub group_target : String → String → Group → Result Target
group_target group role Group.no_hosts =
    err (value_error ("inventory is missing host group: " <> group))
group_target group role Group.not_an_object =
    err (value_error ("inventory group " <> group <> " must contain exactly host " <> role))
group_target group role (Group.hosts ((name, metadata) ∷ [])) =
    if name =ᵗ role
    then target_of role metadata
    else err (value_error ("inventory group " <> group <> " must contain exactly host " <> role))
group_target group role (Group.hosts _) =
    err (value_error ("inventory group " <> group <> " must contain exactly host " <> role))

-- REQUIRED_HOSTS.
abbrev pub required_hosts : List (String × String)
required_hosts = ("kube_control_plane", "control-plane") ∷ ("kube_workers", "worker") ∷ []

unfoldable pub targets_of : List (String × Group) → List (String × String) → Result (List Target)
targets_of children [] = ok []
targets_of children ((group, role) ∷ rest) =
    let later = targets_of children rest in
    and_then (group_target group role (find_group group children))
      λ t. and_then later λ ts. ok (t ∷ ts)

-- `load_targets`; `none` is an inventory without all.children.
unfoldable pub load_targets : Option (List (String × Group)) → Result (List Target)
load_targets none = err (value_error "inventory is missing all.children")
load_targets (some children) = targets_of children required_hosts

-- The first loop of `ensure_ports_available`.
unfoldable pub check_duplicates : List ℕ → Result Done
check_duplicates [] = ok tt
check_duplicates (port ∷ ports) =
    let rest = check_duplicates ports in
    if any (λ p. p == port) ports
    then err (value_error ("duplicate local port: " <> show port))
    else rest

module _ {W : Type 0} (bind : ℕ → W → Bool × W) where
  -- The probe of one port: `bind` says whether the port was free.
  unfoldable pub probe_port : ℕ → Exec W Done
  probe_port port w =
      let (free, w') = bind port w in
      if free
      then (ok tt, w')
      else (err (runtime_error ("local port " <> show port <> " is already in use")), w')

  unfoldable pub ensure_ports_available : List Target → Exec W Done
  ensure_ports_available targets = do
    lift (check_duplicates (map (λ t. t.local_port) targets))
    for_each probe_port (map (λ t. t.local_port) targets)
