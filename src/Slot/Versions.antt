-- ===== src/Slot/Versions.antt =====
-- trusted_applet/internal/storage/slots/slots.go: what Read returns after a write.
use armored_witness_applet.Prelude.{
  ℕ, ◌+◌, ◌%◌, ◌≡◌, ◌≢◌, refl, sym, ap, ◌∙◌, inl, inr, List, arith, word, Bool-cases, Option-cases,
  length,
}
use armored_witness_applet.Result.{Result, ok, err, panic, out_of_fuel, invalid_token}
use armored_witness_applet.Device.{Device}
use armored_witness_applet.Journal.{Entry, Journal, exceeds, size}
use armored_witness_applet.Journal.Update.{
  next_entry, write_block, update, write_entry, finish_update,
}
use armored_witness_applet.Journal.Record.{marshal_entry}
use armored_witness_applet.Slot.{Slot, read, write, check_and_write}

module _ {S : Type 0} (dev : Device S) (sha256 : List ℕ → List ℕ) where
  -- The current entry after an update: the new one, or the old one.
  current-finish_update :
      (j : Journal) (e : Entry) (p : Result ℕ × S)
      → ((finish_update dev sha256 j e p).0 ≡ ok tt
          → (finish_update dev sha256 j e p).1.current ≡ e)
        × ((finish_update dev sha256 j e p).0 ≢ ok tt
            → (finish_update dev sha256 j e p).1.current ≡ j.current)
  unfolding finish_update
  current-finish_update j e (ok n, s) = (λ h. refl, λ h. absurd (h refl))
  current-finish_update j e (err x, s) = (λ h. cc, λ h. refl)
  current-finish_update j e (panic, s) = (λ h. cc, λ h. refl)
  current-finish_update j e (out_of_fuel, s) = (λ h. cc, λ h. refl)

  current-write_entry :
      (s : S) (j : Journal) (e : Entry) (b : Result (List ℕ))
      → ((write_entry dev sha256 s j e b).0 ≡ ok tt
          → (write_entry dev sha256 s j e b).1.current ≡ e)
        × ((write_entry dev sha256 s j e b).0 ≢ ok tt
            → (write_entry dev sha256 s j e b).1.current ≡ j.current)
  unfolding write_entry
  current-write_entry s j e (ok buf) =
      current-finish_update j e (dev.write_blocks s j.next_block buf)
  current-write_entry s j e (err x) = (λ h. cc, λ h. refl)
  current-write_entry s j e panic = (λ h. cc, λ h. refl)
  current-write_entry s j e out_of_fuel = (λ h. cc, λ h. refl)

  pub current-update :
      (s : S) (j : Journal) (p : List ℕ)
      → ((update dev sha256 s j p).0 ≡ ok tt
          → (update dev sha256 s j p).1.current ≡ next_entry sha256 j p)
        × ((update dev sha256 s j p).0 ≢ ok tt → (update dev sha256 s j p).1.current ≡ j.current)
  unfolding update
  current-update s j p = elim (Bool-cases (exceeds (length p) j.max_data_bytes)) [
    | inl t ↦ rw t (λ h. cc, λ h. refl)
    | inr f ↦ rw f (
        current-write_entry s
          (record j { next_block = write_block dev.block_size j (size (next_entry sha256 j p)) })
          (next_entry sha256 j p) (marshal_entry sha256 (next_entry sha256 j p)))
  ]

  -- A write that succeeds is what `Read` returns next, under the next token; one that fails leaves
  -- what `Read` returned before.
  pub read-write :
      (s : S) (x : Slot) (p d : List ℕ) (t : ℕ)
      → read x ≡ ok (d, t)
      → ((write dev sha256 s x p).0 ≡ ok tt
          → read (write dev sha256 s x p).1 ≡ ok (p, (t + 1) % word))
        × ((write dev sha256 s x p).0 ≢ ok tt → read (write dev sha256 s x p).1 ≡ ok (d, t))
  unfolding read write
  read-write s x p d t h = elim (Option-cases x.journal) [
    | inl closed ↦ ground (arith, closed, h)
    | inr (j, e) ↦ ground (arith, e, h, current-update s j p)
  ]

  -- `CheckAndWrite` with the token of the last `Read` is `Write`; with any other it fails, and
  -- neither the slot nor the storage changes.
  pub check_and_write_cases :
      (s : S) (x : Slot) (token : ℕ) (p d : List ℕ) (t : ℕ)
      → read x ≡ ok (d, t)
      → (token ≡ t → check_and_write dev sha256 s x token p ≡ write dev sha256 s x p)
        × (token ≢ t → check_and_write dev sha256 s x token p ≡ (err invalid_token, x, s))
  unfolding read write check_and_write
  check_and_write_cases s x token p d t h = elim (Option-cases x.journal) [
    | inl closed ↦ ground (arith, closed, h)
    | inr (j, e) ↦ ground (arith, e, h)
  ]

  -- Of two writers that hold one token, the second fails once the first has succeeded.
  pub check_and_write_twice :
      (s : S) (x : Slot) (p q d : List ℕ) (t : ℕ)
      → read x ≡ ok (d, t)
      → (check_and_write dev sha256 s x t p).0 ≡ ok tt
      → let (_, x', s') = check_and_write dev sha256 s x t p in
        (read x' ≡ ok (p, (t + 1) % word))
        × (check_and_write dev sha256 s' x' t q ≡ (err invalid_token, x', s'))
  check_and_write_twice s x p q d t h done =
      let first : check_and_write dev sha256 s x t p ≡ write dev sha256 s x p =
        (check_and_write_cases s x t p d t h).0 refl in
      let after : read (check_and_write dev sha256 s x t p).1 ≡ ok (p, (t + 1) % word) =
        ap (λ r. read r.1) first ∙ (read-write s x p d t h).0 (sym (ap (λ r. r.0) first) ∙ done) in
      (
        after,
        (check_and_write_cases (check_and_write dev sha256 s x t p).2
              (check_and_write dev sha256 s x t p).1 t q p ((t + 1) % word) after).1
            (omega arith),
      )
