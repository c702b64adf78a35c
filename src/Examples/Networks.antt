-- ===== src/Examples/Networks.antt =====
-- Networks, and an inventory that is built from outputs of Terraform.
use k8s_dr.Prelude.{ℕ, ◌≡◌, refl, String, true, false, none, some, [], ◌∷◌, ok}
use k8s_dr.Text.{◌=ᵗ◌}
use k8s_dr.Tunnels.{load_targets}
use k8s_dr.Inventory.Networks.{Network, Address, Six, Reading, read_network_four, inside, overlaps}
use k8s_dr.Inventory.Build.{
  OutputValue, Outputs, Host, Inventory, address_text, children, build_inventory,
}
use k8s_dr.Inventory.Loads.{target_at, build_inventory-IsPlaced, load_targets-build_inventory}

-- Nothing here is IPv6.
abbrev no_six : Six
no_six = record { read_network = λ t. none; read_address = λ t. none; show_address = λ n. "" }

-- 10.0.0.0/24, 10.244.0.0/16 and 10.96.0.0/16.
abbrev vpc : Network
vpc = record { six = false; base = 167772160; size = 256 }

abbrev pods : Network
pods = record { six = false; base = 183762944; size = 65536 }

abbrev services : Network
services = record { six = false; base = 174063616; size = 65536 }

abbrev outputs : Outputs
outputs =
    ("project_id", some (OutputValue.text "p"))
    ∷ ("zone", some (OutputValue.text "z"))
    ∷ ("subnet_cidr", some (OutputValue.text "10.0.0.0/24"))
    ∷ (
      "instance_names",
      some (OutputValue.roles (("control-plane", some "cp") ∷ ("worker", some "w") ∷ [])),
    )
    ∷ (
      "internal_ips",
      some (
          OutputValue.roles
            (("control-plane", some "10.0.0.2") ∷ ("worker", some "10.0.0.3") ∷ [])),
    )
    ∷ []

abbrev host : ℕ → String → String → Host
host port name ip = record {
  ansible_port = port;
  node_internal_ip = ip;
  gcp_instance_name = name;
  gcp_project = "p";
  gcp_zone = "z";
}

abbrev built : Inventory
built = record {
  ansible_user = "u";
  private_key_file = "k";
  control_plane = host 2201 "cp" "10.0.0.2";
  worker = host 2202 "w" "10.0.0.3";
}

outputs_build : build_inventory no_six pods services outputs "u" "k" ≡ ok built
unfolding build_inventory k8s_dr.Inventory.Build.find k8s_dr.Inventory.Build.with_outputs
    k8s_dr.Text.drop_end k8s_dr.Text.drop_start k8s_dr.Text.is_space
    k8s_dr.Inventory.Networks.ip_network read_network_four k8s_dr.Text.split_from
    k8s_dr.Inventory.Networks.address_of k8s_dr.Inventory.Networks.octet k8s_dr.Text.contains_char
    k8s_dr.Text.is_digit k8s_dr.Inventory.Networks.number_from k8s_dr.Inventory.Networks.host_bits
    k8s_dr.Inventory.Networks.power_of_two overlaps inside k8s_dr.Inventory.Build.check_networks
    k8s_dr.Inventory.Build.host_of k8s_dr.Inventory.Build.hosts_in
    k8s_dr.Inventory.Networks.ip_address k8s_dr.Text.Decimal.show k8s_dr.Text.◌<>◌
outputs_build = refl

build_inventory-IsPlaced_example :
    (n : Network) × (overlaps n pods ≡ false)
    × (overlaps n services ≡ false)
    × (a : Address) × (b : Address) × (inside a n ≡ true)
    × (inside b n ≡ true)
    × (built.control_plane.node_internal_ip ≡ address_text no_six a)
    × (built.worker.node_internal_ip ≡ address_text no_six b)
    × ((built.control_plane.node_internal_ip =ᵗ built.worker.node_internal_ip) ≡ false)
build_inventory-IsPlaced_example =
    build_inventory-IsPlaced no_six pods services outputs "u" "k" built outputs_build

load_targets-build_inventory_example :
    load_targets (some (children built))
    ≡ ok (
        target_at "control-plane" 2201 built.control_plane
        ∷ target_at "worker" 2202 built.worker
        ∷ [])
load_targets-build_inventory_example =
    load_targets-build_inventory no_six pods services outputs "u" "k" built outputs_build
