-- ===== src/Networking/Starting.antt =====
-- trusted_applet/net.go: when startNetworking succeeds.
use armored_witness_applet.Prelude.{◌≡◌, [], ◌∷◌, some, true, Text, arith, ◌↔◌}
use armored_witness_applet.Result.{ok}
use armored_witness_applet.Naming.{mac}
use armored_witness_applet.Networking.{
  Configuration, Calls, bare_interface, set_up, start_networking,
}

module _ {N M L : Type 0} (lib : Calls N M L) where
  -- With DHCP, the network is started exactly where the status and its MAC address are had, the
  -- address is valid, the NIC is created, and there is a cache for DNS. That Init of the NIC fails
  -- does not count: what it leaves is what is used.
  pub start_networking_dhcp :
      (cfg : Configuration) (n up : N)
      → cfg.dhcp ≡ true
      → (start_networking lib cfg n ≡ ok up) ↔ (
          (serial : Text) × (address : Text) × (link : M) × (gv : L) × (created : N) × (lib.serial
            ≡ some serial)
          × (mac lib.sha256 serial ≡ ok address)
          × (lib.parse_mac address ≡ some link)
          × (lib.parse_mac_address address ≡ some gv)
          × (lib.create_nic gv (lib.new_interface (lib.set_default_ns (cfg.resolver ∷ []) n))
              ≡ some created)
          × (lib.new_dns_cache ≡ some tt)
          × (lib.hook_interface (lib.add_notify (lib.enable_icmp (lib.nic_init link created).1))
              ≡ up))
  unfolding start_networking set_up bare_interface
  start_networking_dhcp cfg n up h = grind arith
