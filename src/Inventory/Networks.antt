-- ===== src/Inventory/Networks.antt =====
-- scripts/prepare_ansible_inventory.py: ip_network, ip_address, overlaps and `in`, as it uses them.
use k8s_dr.Prelude.{
  ℕ, zero, suc, ◌+◌, ◌-◌, ◌*◌, ◌/◌, ◌%◌, String, Bool, true, false, not, ◌&&◌, ◌||◌, Option, none,
  some, List, [], ◌∷◌, leb, ltb, ◌==◌, code, if◌then◌else◌,
}
use k8s_dr.Text.{empty, split, is_digit, contains_char}

-- A network: its version, its first address, and how many addresses it has.
pub record Network : Type 0 where
  pub six : Bool
  pub base : ℕ
  pub size : ℕ

pub record Address : Type 0 where
  pub six : Bool
  pub value : ℕ

-- IPv6, which the standard library reads and writes.
pub record Six : Type 0 where
  pub read_network : String → Option Network
  pub read_address : String → Option ℕ
  pub show_address : ℕ → String

-- The value of a text of digits.
unfoldable pub number_from : ℕ → String → ℕ
number_from n String.[] = n
number_from n (String.◌∷◌ c s) = number_from (10 * n + (code c - 48)) s

abbrev pub all_digits : String → Bool
all_digits t = not (empty t) && not (contains_char (λ c. not (is_digit c)) t)

abbrev pub size_of : String → ℕ
size_of String.[] = 0
size_of (String.◌∷◌ c s) = suc (size_of s)

abbrev pub starts_zero : String → Bool
starts_zero String.[] = false
starts_zero (String.◌∷◌ c s) = code c == 48

-- One part of an IPv4 address: up to three digits, with no leading zero.
unfoldable pub octet : String → Option ℕ
octet t =
    if not (all_digits t) || ltb 3 (size_of t) || (starts_zero t && ltb 1 (size_of t))
    then none
    else if leb (number_from 0 t) 255
    then some (number_from 0 t)
    else none

abbrev put_octet : Option ℕ → Option ℕ → Option ℕ
put_octet (some n) (some low) = some (256 * n + low)
put_octet _ _ = none

-- The value of an IPv4 address with four parts.
unfoldable pub address_of : List String → Option ℕ
address_of (a ∷ b ∷ c ∷ d ∷ []) =
    put_octet (put_octet (put_octet (octet a) (octet b)) (octet c)) (octet d)
address_of _ = none

abbrev pub read_four : String → Option ℕ
read_four t = address_of (split 46 t)

-- How many addresses a network with this many host bits has.
unfoldable pub power_of_two : ℕ → ℕ
power_of_two zero = 1
power_of_two (suc n) = 2 * power_of_two n

-- The host bits of a netmask, or of a host mask: the netmask is tried first.
unfoldable pub mask_bits : ℕ → ℕ → Option ℕ
mask_bits zero mask = if mask + power_of_two 0 == 4294967296 then some 0 else none
mask_bits (suc bits) mask =
    let rest = mask_bits bits mask in
    if mask + power_of_two (suc bits) == 4294967296 then some (suc bits) else rest

abbrev or_host_mask : Option ℕ → ℕ → Option ℕ
or_host_mask (some bits) mask = some bits
or_host_mask none mask = mask_bits 32 (4294967295 - mask)

abbrev bits_of_mask : Option ℕ → Option ℕ
bits_of_mask none = none
bits_of_mask (some mask) = or_host_mask (mask_bits 32 mask) mask

-- What stands behind the slash: a prefix length, or a mask.
unfoldable pub host_bits : String → Option ℕ
host_bits t =
    let masked = bits_of_mask (read_four t) in
    if all_digits t
    then (if leb (number_from 0 t) 32 then some (32 - number_from 0 t) else masked)
    else masked

-- A network of IPv4 with this address and these host bits; strict=True refuses an address inside it.
abbrev strict_network : ℕ → ℕ → Option Network
strict_network value bits =
    if value % power_of_two bits == 0
    then some (record { six = false; base = value; size = power_of_two bits })
    else none

-- What `IPv4Network` does with a text: it has read a network, it refuses one with host bits, or it could not
-- read the text, which then may be IPv6.
pub data Reading : Type 0 where
  network : Network → Reading
  refused not_four : Reading

abbrev as_reading : Option Network → Reading
as_reading (some n) = network n
as_reading none = refused

abbrev pub with_bits : Option ℕ → Option ℕ → Reading
with_bits (some value) (some bits) = as_reading (strict_network value bits)
with_bits _ _ = not_four

unfoldable pub read_network_four : List String → Reading
read_network_four (t ∷ []) = with_bits (read_four t) (some 0)
read_network_four (t ∷ mask ∷ []) = with_bits (read_four t) (host_bits mask)
read_network_four _ = not_four

-- `ip_network(text, strict=True)`.
unfoldable pub ip_network : Six → String → Option Network
ip_network ip6 t = elim (read_network_four (split 47 t)) [
  | network n ↦ some n
  | refused ↦ none
  | not_four ↦ ip6.read_network t
]

abbrev six_address : Option ℕ → Option Address
six_address none = none
six_address (some value) = some (record { six = true; value = value })

-- `ip_address(text)`.
unfoldable pub ip_address : Six → String → Option Address
ip_address ip6 t = elim (read_four t) [
  | some value ↦ some (record { six = false; value = value })
  | none ↦ six_address (ip6.read_address t)
]

abbrev pub same_version : Bool → Bool → Bool
same_version true b = b
same_version false b = not b

-- `address in network`: of the same version, and its network part is that of the network.
unfoldable pub inside : Address → Network → Bool
inside a n = same_version a.six n.six && (a.value / n.size == n.base / n.size)

abbrev pub first_address : Network → Address
first_address n = record { six = n.six; value = n.base }

abbrev pub last_address : Network → Address
last_address n = record { six = n.six; value = n.base + n.size - 1 }

-- `left.overlaps(right)`.
unfoldable pub overlaps : Network → Network → Bool
overlaps left right =
    inside (first_address right) left
    || inside (last_address right) left
    || inside (first_address left) right
    || inside (last_address left) right
