-- ===== src/Updater/Chunks.antt =====
-- trusted_applet/internal/update/rpc/update_client.go: the requests that a transfer makes.
use mathlib.Core.Path.{subst}
use mathlib.Core.List.{append_assoc}
use armored_witness_applet.Prelude.{
  ℕ, zero, suc, ◌+◌, ◌-◌, ◌%◌, ◌≤◌, ◌<◌, ◌≡◌, refl, sym, ap, ◌∙◌, inl, inr, List, [], ◌∷◌, ◌++◌,
  none, some, arith, true, false, leb, length, take, drop, take-all, take-drop, length-take,
  length-drop, Bool, if◌then◌else◌, Bool-cases, word, leb→le,
}
use armored_witness_applet.Updater.{
  Bundle, ProofBundle, FirmwareUpdate, fw_update_chunk_size, Reply, returned, failed, gone, Outcome,
  never_returns, proof_of, continue, send_chunks, send_chunked_update,
}

-- Requests that hand over `fw`, numbered from `i` on: their images are its parts, in order, none
-- longer than a chunk, and the last of them, and no other, has the proof.
pub data Transfer (p : ProofBundle) : ℕ → List ℕ → List FirmwareUpdate → Type 0 where
  last :
      {i : ℕ} {fw : List ℕ}
      → length fw ≤ fw_update_chunk_size
      → Transfer p i fw (record { sequence = i; image = fw; proof = some p } ∷ [])
  more :
      {i : ℕ} {a fw : List ℕ} {us : List FirmwareUpdate}
      → 0 < length a
      → length a ≤ fw_update_chunk_size
      → Transfer p (i + 1) fw us
      → Transfer p i (a ++ fw) (record { sequence = i; image = a; proof = none } ∷ us)

-- An operating system that waits for the proof: it keeps each request, returns on those without a
-- proof, and restarts the device on one with it.
pub record IsInstaller {S : Type 0} (call : S → FirmwareUpdate → Reply × S)
    (log : S → List FirmwareUpdate) : Type 0 where
  pub kept : (s : S) (u : FirmwareUpdate) → log (call s u).1 ≡ log s ++ (u ∷ [])
  pub waits : (s : S) (u : FirmwareUpdate) → u.proof ≡ none → (call s u).0 ≡ returned
  pub installs :
      (s : S) (u : FirmwareUpdate) (p : ProofBundle) → u.proof ≡ some p → (call s u).0 ≡ gone

module _ {S : Type 0} {call : S → FirmwareUpdate → Reply × S} {log : S → List FirmwareUpdate}
    (os : IsInstaller call log) (fb : Bundle) where
  continue-gone :
      (r : Reply × S) (f : S → Outcome × S) → r.0 ≡ gone → continue r f ≡ (never_returns, r.1)
  continue-gone (returned, s) f h = cc
  continue-gone (failed e, s) f h = cc
  continue-gone (gone, s) f h = refl

  continue-returned : (r : Reply × S) (f : S → Outcome × S) → r.0 ≡ returned → continue r f ≡ f r.1
  continue-returned (returned, s) f h = refl
  continue-returned (failed e, s) f h = cc
  continue-returned (gone, s) f h = cc

  -- What a transfer from round `i` on has done when it ends.
  abbrev Ends : ℕ → List ℕ → S → Outcome × S → Type 0
  Ends i fw s r =
      (us : List FirmwareUpdate) × Transfer (proof_of fb) i fw us
      × (r.0 ≡ never_returns)
      × (log r.1 ≡ log s ++ us)

  -- A round of the loop, with `b` for whether it is the last.
  abbrev round : Bool → ℕ → ℕ → List ℕ → S → Outcome × S
  round b fuel i fw s =
      let size = if b then length fw else fw_update_chunk_size in
      let proof = if b then some (proof_of fb) else none in
      continue (call s (record { sequence = i; image = take size fw; proof = proof }))
        (send_chunks call fb fuel ((i + 1) % word) proof (drop size fw))

  abbrev chunk : ℕ → List ℕ → FirmwareUpdate
  chunk i fw = record { sequence = i; image = take fw_update_chunk_size fw; proof = none }

  last-Ends :
      (fuel i : ℕ) (fw : List ℕ) (s : S)
      → length fw ≤ fw_update_chunk_size
      → Ends i fw s (round true fuel i fw s)
  last-Ends fuel i fw s le =
      let u : FirmwareUpdate = record {
        sequence = i;
        image = take (length fw) fw;
        proof = some (proof_of fb);
      } in
      let step : round true fuel i fw s ≡ (never_returns, (call s u).1) =
        continue-gone (call s u) _ (os.installs s u (proof_of fb) refl) in
      let same : u ≡ record { sequence = i; image = fw; proof = some (proof_of fb) } =
        ap (λ l. record { sequence = i; image = l; proof = some (proof_of fb) })
          (take-all (length fw) fw (omega arith)) in
      (
        record { sequence = i; image = fw; proof = some (proof_of fb) } ∷ [],
        last le,
        ap (λ r. r.0) step,
        ap (λ r. log r.1) step ∙ os.kept s u ∙ ap (λ v. log s ++ (v ∷ [])) same,
      )

  more-Ends :
      (fuel i : ℕ) (fw : List ℕ) (s : S)
      → fw_update_chunk_size < length fw
      → i + 1 < word
      → Ends (i + 1) (drop fw_update_chunk_size fw) (call s (chunk i fw)).1 (
          send_chunks call fb fuel
            (i + 1)
            none
            (drop fw_update_chunk_size fw)
            (call s (chunk i fw)).1)
      → Ends i fw s (round false fuel i fw s)
  more-Ends fuel i fw s over small (us, parts, ends, logged) =
      let u : FirmwareUpdate = chunk i fw in
      let next : (i + 1) % word ≡ i + 1 = omega arith in
      let step : round false fuel i fw s
          ≡ send_chunks call fb fuel (i + 1) none (drop fw_update_chunk_size fw) (call s u).1 =
        continue-returned (call s u) _ (os.waits s u refl)
        ∙ ap (λ k. send_chunks call fb fuel k none (drop fw_update_chunk_size fw) (call s u).1)
            next in
      let len : length (take fw_update_chunk_size fw) ≡ fw_update_chunk_size =
        omega (arith, length-take fw_update_chunk_size fw) in
      (
        u ∷ us,
        subst (λ l. Transfer (proof_of fb) i l (u ∷ us)) (take-drop fw_update_chunk_size fw)
            (more (omega arith) (omega arith) parts),
        ap (λ r. r.0) step ∙ ends,
        ap (λ r. log r.1) step
            ∙ logged
            ∙ ap (λ l. l ++ us) (os.kept s u)
            ∙ append_assoc (log s) (u ∷ []) us,
      )

  send_chunks-Ends :
      (fuel i : ℕ) (fw : List ℕ) (s : S)
      → length fw < fuel
      → i + length fw < word
      → Ends i fw s (send_chunks call fb fuel i none fw s)
  unfolding send_chunks
  send_chunks-Ends zero i fw s enough small = absurd (omega arith)
  send_chunks-Ends (suc fuel) i fw s enough small =
      elim (Bool-cases (leb (length fw) fw_update_chunk_size)) [
        | inl t ↦
            subst (λ b. Ends i fw s (round b fuel i fw s)) (sym t)
              (last-Ends fuel i fw s (leb→le (length fw) fw_update_chunk_size t))
        | inr f ↦
            (let over : fw_update_chunk_size < length fw = ground (arith, f) in
              let left : length (drop fw_update_chunk_size fw) ≡ length fw - fw_update_chunk_size =
                length-drop fw_update_chunk_size fw in
              subst (λ b. Ends i fw s (round b fuel i fw s)) (sym f)
                (more-Ends fuel i fw s over (omega arith) (
                  send_chunks-Ends fuel (i + 1) (drop fw_update_chunk_size fw)
                    (call s (chunk i fw)).1 (omega arith) (omega arith))))
      ]

  -- A transfer to such an operating system hands over the whole firmware in numbered chunks, the
  -- proof with the last of them and no other, and does not return. The fuel is more than the
  -- firmware has bytes, which are fewer than 2^32.
  pub send_chunked_update_lem :
      (fuel : ℕ) (s : S)
      → length fb.firmware < fuel
      → length fb.firmware < word
      → (us : List FirmwareUpdate) × Transfer (proof_of fb) 0 fb.firmware us
        × ((send_chunked_update call fb fuel s).0 ≡ never_returns)
        × (log (send_chunked_update call fb fuel s).1 ≡ log s ++ us)
  unfolding send_chunked_update
  send_chunked_update_lem fuel s enough small =
      send_chunks-Ends fuel 0 fb.firmware s enough (omega arith)
