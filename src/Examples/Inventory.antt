-- ===== src/Examples/Inventory.antt =====
-- An inventory and its targets.
use k8s_dr.Prelude.{ℕ, ◌≡◌, refl, String, some, List, [], ◌∷◌, ok, All, map}
use k8s_dr.Tunnels.{Value, Metadata, Group, Target, load_targets}
use k8s_dr.Tunnels.Laws.{IsUsable, load_targets-IsUsable}

abbrev metadata_at : ℕ → String → Metadata
metadata_at port name =
    ("ansible_host", Value.text "127.0.0.1")
    ∷ ("ansible_port", Value.number port)
    ∷ ("gcp_instance_name", Value.text name)
    ∷ ("gcp_project", Value.text "p")
    ∷ ("gcp_zone", Value.text "z")
    ∷ []

abbrev inventory : List (String × Group)
inventory =
    ("kube_control_plane", Group.hosts (("control-plane", some (metadata_at 2201 "cp")) ∷ []))
    ∷ ("kube_workers", Group.hosts (("worker", some (metadata_at 2202 "w")) ∷ []))
    ∷ []

abbrev target_at : String → String → ℕ → Target
target_at role name port = record {
  role = role;
  instance_name = name;
  project = "p";
  zone = "z";
  local_port = port;
}

abbrev both : List Target
both = target_at "control-plane" "cp" 2201 ∷ target_at "worker" "w" 2202 ∷ []

inventory_loads : load_targets (some inventory) ≡ ok both
unfolding load_targets k8s_dr.Tunnels.targets_of k8s_dr.Tunnels.group_target
    k8s_dr.Tunnels.find_group k8s_dr.Tunnels.target_of k8s_dr.Tunnels.field k8s_dr.Text.drop_end
    k8s_dr.Text.drop_start k8s_dr.Text.is_space
inventory_loads = refl

load_targets-IsUsable_example :
    All IsUsable both × (map (λ t. t.role) both ≡ "control-plane" ∷ "worker" ∷ [])
load_targets-IsUsable_example = load_targets-IsUsable (some inventory) both inventory_loads
