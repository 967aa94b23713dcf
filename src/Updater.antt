-- ===== src/Updater.antt =====
-- trusted_applet/internal/update/rpc/update_client.go: the transfer of firmware to the operating
-- system, and trusted_applet/internal/firmware/bundle.go.
pub mod Chunks
use armored_witness_applet.Prelude.{
  ℕ, zero, suc, ◌+◌, ◌%◌, List, Option, none, some, leb, if◌then◌else◌, length, take, drop, word,
}
use armored_witness_applet.Result.{Error}

pub record Bundle : Type 0 where
  pub checkpoint : List ℕ
  pub index : ℕ
  pub inclusion_proof : List (List ℕ)
  pub manifest : List ℕ
  pub firmware : List ℕ

-- the request of "RPC.InstallOS" and "RPC.InstallApplet"
pub record ProofBundle : Type 0 where
  pub checkpoint : List ℕ
  pub log_index : ℕ
  pub inclusion_proof : List (List ℕ)
  pub manifest : List ℕ

pub record FirmwareUpdate : Type 0 where
  pub sequence : ℕ
  pub image : List ℕ
  pub proof : Option ProofBundle

abbrev pub fw_update_chunk_size : ℕ
fw_update_chunk_size = 1048576

-- How a system call ends: with nil, with an error, or, where the device restarts, never.
pub data Reply : Type 0 where
  returned : Reply
  failed : Error → Reply
  gone : Reply

-- How the transfer ends: it returns an error, it is gone, or the model's fuel has run out.
pub data Outcome : Type 0 where
  returns : Error → Outcome
  never_returns : Outcome
  out_of_fuel : Outcome

abbrev pub proof_of : Bundle → ProofBundle
proof_of fb = record {
  checkpoint = fb.checkpoint;
  log_index = fb.index;
  inclusion_proof = fb.inclusion_proof;
  manifest = fb.manifest;
}

abbrev pub continue : {S : Type 0} → Reply × S → (S → Outcome × S) → Outcome × S
continue (returned, s) f = f s
continue (failed e, s) f = (returns e, s)
continue (gone, s) f = (never_returns, s)

module _ {S : Type 0} (call : S → FirmwareUpdate → Reply × S) (fb : Bundle) where
  -- The loop of `sendChunkedUpdate`, from round `i` on: `fw` is the firmware that is left, and
  -- `proof` the proof in the request, which no round takes out again.
  unfoldable pub send_chunks : ℕ → ℕ → Option ProofBundle → List ℕ → S → Outcome × S
  send_chunks zero i proof fw s = (out_of_fuel, s)
  send_chunks (suc fuel) i proof fw s =
      let last = leb (length fw) fw_update_chunk_size in
      let size = if last then length fw else fw_update_chunk_size in
      let proof' = if last then some (proof_of fb) else proof in
      continue (call s (record { sequence = i; image = take size fw; proof = proof' }))
        (send_chunks fuel ((i + 1) % word) proof' (drop size fw))

  unfoldable pub send_chunked_update : ℕ → S → Outcome × S
  send_chunked_update fuel s = send_chunks fuel 0 none fb.firmware s

-- The methods of Client, on what the operating system does in a call, each by its name.
pub data Rpc : Type 0 where
  install_os install_applet : Rpc

module _ {S : Type 0} (call : Rpc → S → FirmwareUpdate → Reply × S) where
  unfoldable pub client_install_os : Bundle → ℕ → S → Outcome × S
  client_install_os fb = send_chunked_update (call install_os) fb

  unfoldable pub client_install_applet : Bundle → ℕ → S → Outcome × S
  client_install_applet fb = send_chunked_update (call install_applet) fb

pub record InstalledVersions (V : Type 0) : Type 0 where
  pub os : V
  pub applet : V

-- `GetInstalledVersions`, of what the system call leaves in its answer, `none` for no error
unfoldable pub get_installed_versions :
    {S V : Type 0} (call : S → InstalledVersions V × Option Error × S)
    → S
    → (V × V × Option Error) × S
get_installed_versions call s = let (iv, e, s') = call s in ((iv.os, iv.applet, e), s')

-- `Reboot`, which passes over an error; `none` where it does not return
unfoldable pub reboot : {S : Type 0} → (S → Reply × S) → S → Option S
reboot call s =
    let (reply, s') = call s in elim reply [ returned ↦ some s' | failed e ↦ some s' | gone ↦ none ]
