-- ===== src/Inventory.antt =====
-- scripts/prepare_ansible_inventory.py: the networks that it compares, and build_inventory. The outputs of
-- Terraform are given decoded. IPv4 is read here; `Six` is what the standard library reads and writes as IPv6.
pub mod Networks
pub mod Build
pub mod Loads
