-- ===== src/Networking.antt =====
-- trusted_applet/net.go: startNetworking.
pub mod Starting
use armored_witness_applet.Prelude.{ℕ, List, [], ◌∷◌, Option, none, some, Bool, if◌then◌else◌, Text}
use armored_witness_applet.Result.{
  Error, Result, ok, err, panic, out_of_fuel, ◌>>=◌, status_failed, invalid_mac, create_nic_failed,
  init_failed, dns_cache_failed,
}
use armored_witness_applet.Naming.{mac}

-- what the code reads of `api.Configuration`
pub record Configuration : Type 0 where
  pub dhcp : Bool
  pub ip : Text
  pub netmask : Text
  pub gateway : Text
  pub resolver : Text
  pub ntp_server : Text

-- What it calls, on the state `N` of the interface, of addresses `M` of package net, `L` of package
-- tcpip. `none` is an error, but of `nic_init`, which tells it beside what it leaves.
pub record Calls (N M L : Type 0) : Type 0 where
  pub set_default_ns : List Text → N → N
  pub serial : Option Text
  pub sha256 : List ℕ → List ℕ
  pub new_interface : N → N
  pub parse_mac : Text → Option M
  pub parse_mac_address : Text → Option L
  pub create_nic : L → N → Option N
  pub nic_init : M → N → Option Error × N
  pub interface_init : Text → Text → Text → Text → N → Option N
  pub enable_icmp : N → N
  pub add_notify : N → N
  pub new_dns_cache : Option (Unit {0})
  pub hook_interface : N → N

abbrev pub checked : {A : Type 0} → Option A → Error → Result A
checked none e = err e
checked (some a) e = ok a

module _ {N M L : Type 0} (lib : Calls N M L) where
  -- the branch for DHCP
  unfoldable pub bare_interface : Text → N → Result N
  bare_interface mac_address n = checked (lib.parse_mac mac_address) invalid_mac >>= λ link_address.
      checked (lib.parse_mac_address mac_address) invalid_mac >>= λ gv_address.
      checked (lib.create_nic gv_address n) create_nic_failed >>= λ n'.
      ok (lib.nic_init link_address n').1

  unfoldable pub set_up : Configuration → Text → N → Result N
  set_up cfg mac_address n =
      if cfg.dhcp
      then bare_interface mac_address n
      else checked (lib.interface_init cfg.ip cfg.netmask mac_address cfg.gateway n) init_failed

  unfoldable pub start_networking : Configuration → N → Result N
  start_networking cfg n =
      let n' = lib.set_default_ns (cfg.resolver ∷ []) n in
      checked lib.serial status_failed >>= λ serial. mac lib.sha256 serial >>= λ mac_address.
      set_up cfg mac_address (lib.new_interface n') >>= λ up.
      checked lib.new_dns_cache dns_cache_failed >>= λ _.
      ok (lib.hook_interface (lib.add_notify (lib.enable_icmp up)))
