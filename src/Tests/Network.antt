-- ===== src/Tests/Network.antt =====
-- Tests of the network: leases, the clock, and the MAC address.
use armored_witness_applet.Prelude.{
  ℕ, ◌≡◌, refl, List, [], ◌∷◌, Option, none, some, Bool, true, false, arith, Text, codes, length,
  ◌↔◌, ◌≢◌, ◌+◌, ◌%◌, ◌/◌, ==_iff, ◌==◌,
}
use armored_witness_applet.Result.{ok, init_failed}
use armored_witness_applet.Dhcp.{
  AddressWithPrefix, Config, Stack, State, never, running, done, panics, acquired, same, gain, lose,
  configure_net_from_dhcp,
}
use armored_witness_applet.Dhcp.Leases.{Reaches, start, event, acquired_ends, Holds}
use armored_witness_applet.Dhcp.Failing.{acquired-refused}
use armored_witness_applet.Clock.{Attempt, clock_at, ntp_rounds, last_time, ntp_rounds_lem}
use armored_witness_applet.Naming.{mac, mac_text, hex_byte, hex_digit, flagged, bit_and, bit_or}
use armored_witness_applet.Naming.Octets.{mac_lem, octets}
use armored_witness_applet.Networking.{Configuration, Calls, start_networking}
use armored_witness_applet.Networking.Starting.{start_networking_dhcp}

-- Addresses as numbers, of which 0 is unspecified, and a stack that takes those it is told to.
abbrev numbers : Bool → Stack ℕ ℕ (List ℕ)
numbers takes = record {
  unspecified = λ a. a == 0;
  same_address = λ a b. a == b;
  show = λ a. a ∷ [];
  subnet = λ a. a.address;
  empty_subnet = 0;
  add_protocol_address = λ n a. elim takes [ true ↦ some (a.address ∷ n) | false ↦ none ];
  remove_address = λ n a. some [];
}

abbrev at : ℕ → AddressWithPrefix ℕ
at a = record { address = a; prefix_len = 24 }

abbrev lease_info : Config ℕ
lease_info = record { dns = 8 ∷ []; router = 1 ∷ [] }

abbrev idle_state : State ℕ ℕ (List ℕ)
idle_state = record { child = never; f_done = 0; network = []; routes = []; resolvers = [] }

acquired-refused_example :
    (acquired (numbers false) idle_state (at 0) (at 7) lease_info ≡ done idle_state)
    × (acquired (numbers false) idle_state (at 7) (at 9) lease_info ≡ panics)
acquired-refused_example =
    acquired-refused (numbers false) idle_state (at 0) (at 7) (at 9) lease_info lease_info refl refl
      not_same changed refl refl idle
  where
    not_same : same (numbers false) (at 0) (at 7) ≡ false
    not_same = unfold same in refl

    changed : same (numbers false) (at 7) (at 9) ≡ false
    changed = unfold same in refl

    idle : never ≢ running
    idle e = cc

-- The first lease is acquired, and the next is another.
first_lease : State ℕ ℕ (List ℕ)
unfolding gain configure_net_from_dhcp
first_lease = gain (numbers true) idle_state (at 7) lease_info

first_lease-Reaches : Reaches (numbers true) first_lease (some (at 7, lease_info))
unfolding first_lease acquired same lose
first_lease-Reaches =
    event idle_state first_lease none (at 0) (at 7) lease_info (start idle_state refl refl) refl
      refl

same_sound : (a b : ℕ) → (a == b) ≡ true → a ≡ b
same_sound a b = (==_iff a b).0

acquired_ends_example :
    Holds (numbers true) first_lease (some (at 7, lease_info))
    × ((s' : State ℕ ℕ (List ℕ)) × (acquired (numbers true) first_lease (at 7) (at 9) lease_info
          ≡ done s'))
acquired_ends_example =
    acquired_ends (numbers true) same_sound (λ a n. (a.address ∷ n, refl)) first_lease
      (some (at 7, lease_info)) (at 7) (at 9) lease_info first_lease-Reaches refl

-- A server whose response is a time, and an answer that Validate refuses
abbrev attempts : List (Attempt ℕ ℕ)
attempts =
    record { addresses = none; query = λ ip. none }
    ∷ record { addresses = some (5 ∷ []); query = λ ip. some 1700 }
    ∷ []

ntp_rounds_lem_example :
    ntp_rounds (λ r. true) (λ r. r) attempts (clock_at none)
    ≡ ok (clock_at (last_time (λ r. true) (λ r. r) attempts none))
ntp_rounds_lem_example = ntp_rounds_lem (λ r. true) (λ r. r) attempts none (missing, (one, tt))
  where
    nothing : Option (List ℕ)
    nothing = none

    missing : nothing ≢ some []
    missing e = cc

    five : Option (List ℕ)
    five = some (5 ∷ [])

    one : five ≢ some []
    one e = cc

-- A hash of six bytes
abbrev hash : List ℕ → List ℕ
hash _ = 255 ∷ 16 ∷ 171 ∷ 0 ∷ 9 ∷ 1 ∷ []

mac_lem_example :
    (text : Text) × (m : ℕ) × (mac hash (codes "1234") ≡ ok text)
    × (length text ≡ 17)
    × (octets text ≡ m ∷ 16 ∷ 171 ∷ 0 ∷ 9 ∷ 1 ∷ [])
    × (m % 2 ≡ 0)
    × (m / 2 % 2 ≡ 1)
    × (m / 4 ≡ 255 / 4)
mac_lem_example =
    mac_lem hash (codes "1234") 255 16 171 0 9 1 [] refl
      (omega arith, (omega arith, (omega arith, (omega arith, (omega arith, (omega arith, tt))))))

mac_text_run : mac hash (codes "1234") ≡ ok (codes "fe:10:ab:00:09:01")
unfolding mac mac_text hex_byte hex_digit flagged bit_and bit_or
mac_text_run = refl

-- Calls that succeed, but for Init of the NIC, and count what was done
abbrev pub calls : Calls ℕ Text Text
calls = record {
  set_default_ns = λ r n. n + 1;
  serial = some (codes "1234");
  sha256 = hash;
  new_interface = λ n. n + 1;
  parse_mac = λ t. some t;
  parse_mac_address = λ t. some t;
  create_nic = λ a n. some (n + 1);
  nic_init = λ a n. (some init_failed, n + 1);
  interface_init = λ i m a g n. none;
  enable_icmp = λ n. n + 1;
  add_notify = λ n. n + 1;
  new_dns_cache = some tt;
  hook_interface = λ n. n + 1;
}

abbrev pub config : Bool → Configuration
config dhcp = record {
  dhcp = dhcp;
  ip = [];
  netmask = [];
  gateway = [];
  resolver = [];
  ntp_server = [];
}

start_networking_dhcp_example : (start_networking calls (config true) 0 ≡ ok 7) ↔ (
    (serial : Text) × (address : Text) × (link : Text) × (gv : Text) × (created : ℕ) × (calls.serial
      ≡ some serial)
    × (mac hash serial ≡ ok address)
    × (calls.parse_mac address ≡ some link)
    × (calls.parse_mac_address address ≡ some gv)
    × (calls.create_nic gv (calls.new_interface (calls.set_default_ns ([] ∷ []) 0)) ≡ some created)
    × (calls.new_dns_cache ≡ some tt)
    × (calls.hook_interface (calls.add_notify (calls.enable_icmp (calls.nic_init link created).1))
        ≡ 7))
start_networking_dhcp_example = start_networking_dhcp calls (config true) 0 7 refl
