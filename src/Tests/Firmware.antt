-- ===== src/Tests/Firmware.antt =====
-- Tests of the transfer of firmware.
use armored_witness_applet.Prelude.{◌≡◌, refl, ap, List, [], ◌∷◌, ◌++◌, Option, none, some, arith}
use armored_witness_applet.Updater.{
  Bundle, ProofBundle, FirmwareUpdate, Reply, returned, gone, never_returns, proof_of,
  send_chunked_update,
}
use armored_witness_applet.Updater.Chunks.{Transfer, IsInstaller, send_chunked_update_lem}

abbrev answer : Option ProofBundle → Reply
answer none = returned
answer (some p) = gone

-- An operating system that keeps what it is sent
abbrev recorder : List FirmwareUpdate → FirmwareUpdate → Reply × List FirmwareUpdate
recorder s u = (answer u.proof, s ++ (u ∷ []))

recorder-IsInstaller : IsInstaller recorder (λ s. s)
recorder-IsInstaller = record {
  kept = λ s u. refl;
  waits = λ s u h. ap answer h;
  installs = λ s u p h. ap answer h;
}

abbrev bundle : Bundle
bundle = record {
  checkpoint = 1 ∷ [];
  index = 4;
  inclusion_proof = [];
  manifest = 2 ∷ [];
  firmware = 7 ∷ 8 ∷ 9 ∷ [];
}

send_chunked_update_lem_example :
    (us : List FirmwareUpdate) × Transfer (proof_of bundle) 0 (7 ∷ 8 ∷ 9 ∷ []) us
    × ((send_chunked_update recorder bundle 4 []).0 ≡ never_returns)
    × ((send_chunked_update recorder bundle 4 []).1 ≡ [] ++ us)
send_chunked_update_lem_example =
    send_chunked_update_lem recorder-IsInstaller bundle 4 [] (omega arith) (omega arith)
