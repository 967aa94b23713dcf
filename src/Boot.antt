-- ===== src/Boot.antt =====
-- trusted_applet/main.go: main, up to the start of the DHCP client.
pub mod Ready
pub mod Reports
use armored_witness_applet.Prelude.{
  ℕ, List, [], ◌∷◌, ◌++◌, Option, none, some, Bool, true, if◌then◌else◌, ltb, length, Text, codes,
}
use armored_witness_applet.Result.{
  Result, ok, err, panic, out_of_fuel, ◌>>=◌, wrap, version_refused, invalid_configuration,
  status_failed, cannot_start_networking, no_persistence,
}
use armored_witness_applet.Keys.{Status, Crypto, Identity, derive_identity_keys}
use armored_witness_applet.Naming.{clean_for_dns}
use armored_witness_applet.Networking.{Configuration, Calls, checked, start_networking}
use armored_witness_applet.Device.{Device}
use armored_witness_applet.Slots.{Partition}
use armored_witness_applet.Startup.{open_storage}
use armored_witness_applet.Persistence.{Library, World, Exec, new_slot_persistence}
use armored_witness_applet.Persistence.Directory.{init}

-- What the operating system answers: whether it accepts the version; the configuration that it
-- sends back, or an error; and the status. `unmarshal_config` is that of the package proto.
pub record System : Type 0 where
  pub accepts_version : Bool
  pub config : Configuration → Option (List ℕ)
  pub unmarshal_config : List ℕ → Configuration → Option Configuration
  pub status : Option Status

-- What the applet has at the end of its start.
pub record Started (S N : Type 0) : Type 0 where
  pub cfg : Configuration
  pub identity : Identity
  pub net : N
  pub storage : World S
  pub client_id : Text
  pub hostname : Text

abbrev pub default_configuration : Configuration
default_configuration = record {
  dhcp = true;
  ip = codes "10.0.0.1";
  netmask = codes "255.255.255.0";
  gateway = codes "10.0.0.2";
  resolver = codes "8.8.8.8:53";
  ntp_server = codes "time.google.com";
}

-- An error of "RPC.Config" is only logged, and leaves no answer.
unfoldable pub answered_config : System → Configuration → Option (List ℕ) → Result Configuration
answered_config os cfg none = ok cfg
answered_config os cfg (some answer) =
    if ltb 0 (length answer)
    then checked (os.unmarshal_config answer cfg) invalid_configuration
    else ok cfg

unfoldable pub check_version : System → Result (Unit {0})
check_version os = if os.accepts_version then ok tt else err version_refused

-- The name of the host, from that of the key.
unfoldable pub hostname_of : Option Text → Text
hostname_of none = codes "armoredwitness"
hostname_of (some name) = clean_for_dns name

-- `log.Fatalf` and `klog.Exitf` end the applet: they are errors here. The partition and the call
-- of Init are parameters: those of the applet are in `main_start`. `verifier_name` is the name in a
-- verifier key, which is read by the package note.
module _ {S N M L R : Type 0} (os : System) (crypto : Crypto R) (calls : Calls N M L)
    (verifier_name : Text → Option Text) where
  unfoldable pub start : Result Partition → Exec S (Unit {0}) → S → N → Result (Started S N)
  start partition initialise store n = check_version os >>= λ _.
      answered_config os default_configuration (os.config default_configuration) >>= λ cfg.
      checked os.status status_failed >>= λ s. derive_identity_keys crypto s >>= λ identity.
      wrap cannot_start_networking (start_networking calls cfg n) >>= λ net. partition >>= λ part.
      let ran = initialise (record { per = new_slot_persistence part; store = store }) in
      wrap no_persistence ran.0 >>= λ _. ok (record {
        cfg = cfg;
        identity = identity;
        net = net;
        storage = ran.1;
        client_id = codes "AW-" ++ s.serial;
        hostname = hostname_of (verifier_name identity.witness_public_key);
      })

  -- the start of the applet, on blocks of `bs` bytes
  unfoldable pub main_start : ℕ → ℕ → Device S → ℕ → Library → S → N → Result (Started S N)
  main_start fuel bs dev max_alloc lib store n =
      start (open_storage fuel bs) (init dev crypto.sha256 max_alloc lib) store n
