-- ===== src/Journal/Updating.antt =====
-- trusted_applet/internal/storage/slots/journal.go: what `Update` leaves on storage and in memory.
use armored_witness_applet.Prelude.{
  ℕ, ◌+◌, ◌-◌, ◌*◌, ◌^◌, ◌%◌, ◌≤◌, ◌<◌, ◌≡◌, ◌≢◌, refl, sym, ap, ◌∙◌, ◌⊎◌, List, ◌++◌, arith,
  length, replicate, word, false,
}
use armored_witness_applet.Result.{Result, ok, err, panic, out_of_fuel}
use armored_witness_applet.Device.{Device}
use armored_witness_applet.Device.Laws.{IsBlockStore, Covers}
use armored_witness_applet.Journal.{Entry, Journal, size, exceeds}
use armored_witness_applet.Journal.Update.{
  next_entry, write_block, finish_update, write_entry, update,
}
use armored_witness_applet.Journal.RoundTrip.{IsSound, encode, length-encode, marshal_entry_lem}
use armored_witness_applet.Journal.Layout.{Holds}
use armored_witness_applet.Journal.Space.{
  IsPlaced, Place, blocks, blocks-Covers, write_block-Place, Place-le,
}

-- What `Update` is given: data that the journal admits, a revision that is not the last of its 32
-- bits, and the digest's size.
pub record Accepts (sha256 : List ℕ → List ℕ) (max_alloc : ℕ) (j : Journal) (bytes : List ℕ)
    : Type 0 where
  pub admitted : exceeds (length bytes) j.max_data_bytes ≡ false
  pub revision : j.current.revision + 1 < word
  pub allocated : length bytes ≤ max_alloc
  pub digest_size : length (sha256 bytes) ≡ 32

pub admitted_bounds : (len m : ℕ) → exceeds len m ≡ false → (len ≤ m) × (len < 2 ^ 31)
admitted_bounds len m h = ground arith

pub next_entry-IsSound :
    (sha256 : List ℕ → List ℕ) (max_alloc : ℕ) (j : Journal) (bytes : List ℕ)
    → Accepts sha256 max_alloc j bytes
    → IsSound sha256 max_alloc (next_entry sha256 j bytes)
next_entry-IsSound sha256 max_alloc j bytes a = record {
  prefix = refl;
  revision_pos = omega (arith, a.revision);
  revision_lt = omega arith;
  counted = refl;
  data_len_lt = omega (arith, admitted_bounds (length bytes) j.max_data_bytes a.admitted);
  allocated = a.allocated;
  digest = refl;
  digest_size = a.digest_size;
}

module _ {S : Type 0} {dev : Device S} {capacity : ℕ} {Valid : S → Type 0} {block : S → ℕ → List ℕ}
    (laws : IsBlockStore dev capacity Valid block) (sha256 : List ℕ → List ℕ) (max_alloc : ℕ) where
  -- The write that `Update` makes of data that it admits.
  pub update-eq-write :
      (s : S) (j : Journal) (bytes : List ℕ)
      → Accepts sha256 max_alloc j bytes
      → let e = next_entry sha256 j bytes in
        let w = write_block dev.block_size j (size e) in
        update dev sha256 s j bytes
        ≡ finish_update dev sha256 (record j { next_block = w }) e (dev.write_blocks s w (encode e))
  unfolding update write_entry
  update-eq-write s j bytes a = rw (
    a.admitted,
    marshal_entry_lem sha256 max_alloc (next_entry sha256 j bytes)
        (next_entry-IsSound sha256 max_alloc j bytes a),
  )

  finish-ok :
      (j : Journal) (e : Entry) (p : Result ℕ × S)
      → (finish_update dev sha256 j e p).0 ≡ ok tt
      → (m : ℕ) × (p.0 ≡ ok m)
        × (finish_update dev sha256 j e p
            ≡ (ok tt, record j { next_block = (j.next_block + m) % word; current = e }, p.1))
  unfolding finish_update
  finish-ok j e (ok m, s) h = (m, refl, refl)
  finish-ok j e (err x, s) h = cc
  finish-ok j e (panic, s) h = cc
  finish-ok j e (out_of_fuel, s) h = cc

  finish-failed :
      (j : Journal) (e : Entry) (p : Result ℕ × S)
      → (finish_update dev sha256 j e p).0 ≢ ok tt
      → ((finish_update dev sha256 j e p).1 ≡ j) × ((finish_update dev sha256 j e p).2 ≡ p.1)
  unfolding finish_update
  finish-failed j e (ok m, s) h = absurd (h refl)
  finish-failed j e (err x, s) h = (refl, refl)
  finish-failed j e (panic, s) h = (refl, refl)
  finish-failed j e (out_of_fuel, s) h = (refl, refl)

  -- Where the record of `e` is written, and what the storage is afterwards.
  pub record Writes (top : ℕ) (s : S) (j : Journal) (e : Entry) (w n : ℕ) (s' : S) : Type 0 where
    pub place : Place dev.block_size top j (size e) w
    pub from : j.start ≤ w
    pub to : w + n ≤ top
    pub covers : Covers dev.block_size n (size e)
    pub still_valid : Valid s'
    pub frame : (i : ℕ) → (i < w) ⊎ (w + n ≤ i) → i < capacity → block s' i ≡ block s i

  module _ (top : ℕ) (top_in : top ≤ capacity) (s : S) (valid : Valid s) (j : Journal)
      (placed : IsPlaced dev.block_size top j) (bytes : List ℕ)
      (accepts : Accepts sha256 max_alloc j bytes) where
    -- The entry, its address and its blocks.
    abbrev pub entry : Entry
    entry = next_entry sha256 j bytes

    abbrev pub address : ℕ
    address = write_block dev.block_size j (size entry)

    abbrev pub count : ℕ
    count = blocks dev.block_size (size entry)

    abbrev pub written : S
    written = (dev.write_blocks s address (encode entry)).1

    sound : IsSound sha256 max_alloc entry
    sound = next_entry-IsSound sha256 max_alloc j bytes accepts

    len : length (encode entry) ≡ size entry
    len = length-encode sha256 max_alloc entry sound

    step :
        update dev sha256 s j bytes
        ≡ finish_update dev sha256
            (record j { next_block = address })
            entry
            (dev.write_blocks s address (encode entry))
    step = update-eq-write s j bytes accepts

    pub update-Writes : Writes top s j entry address count written
    update-Writes =
        let place : Place dev.block_size top j (size entry) address =
          write_block-Place dev.block_size top j (size entry) placed in
        let covers : Covers dev.block_size count (size entry) =
          blocks-Covers dev.block_size (size entry) placed.block_pos (omega arith) in
        let inside : (j.start ≤ address) × (address + count ≤ top) =
          Place-le dev.block_size top j (size entry) address count placed
            (omega (arith, admitted_bounds (length bytes) j.max_data_bytes accepts.admitted)) covers
            place in
        record {
          place = place;
          from = inside.0;
          to = inside.1;
          covers = covers;
          still_valid =
              laws.write_valid s address (encode entry) count valid (omega (arith, len))
                (omega (arith, len, covers)) (omega (arith, inside));
          frame = λ i h.
              laws.write_frame s address (encode entry) count i valid (omega (arith, len))
                (omega (arith, len, covers)) (omega (arith, inside)) h;
        }

    -- A successful `Update`: the record is on storage, and the journal stands behind it.
    pub update-ok :
        (update dev sha256 s j bytes).0 ≡ ok tt
        → (update dev sha256 s j bytes
            ≡ (ok tt, record j { next_block = address + count; current = entry }, written))
          × Holds dev block sha256 max_alloc written address count entry
    update-ok h =
        let jw : Journal = record j { next_block = address } in
        let (m, wrote, done) =
          finish-ok jw entry (dev.write_blocks s address (encode entry))
            (sym (ap (λ t. t.0) step) ∙ h) in
        let (all, stored) =
          laws.write_ok s address (encode entry) count m valid wrote (omega (arith, len))
            (omega (arith, len, update-Writes.covers)) (omega (arith, update-Writes.to)) in
        let next : (address + m) % word ≡ address + count =
          omega (arith, all, update-Writes.to, placed.top_small) in
        (
          step
              ∙ done
              ∙ ap {A = ℕ} {B = Result (Unit {0}) × Journal × S}
                  (λ k. (ok tt, record j { next_block = k; current = entry }, written)) next,
          record {
            sound = sound;
            covers = update-Writes.covers;
            stored =
                stored ∙ ap (λ k. encode entry ++ replicate (count * dev.block_size - k) 0) len;
          },
        )

    -- A failed `Update` keeps the current entry, and touches only the blocks it was to write.
    pub update-failed :
        (update dev sha256 s j bytes).0 ≢ ok tt
        → ((update dev sha256 s j bytes).1 ≡ record j { next_block = address })
          × ((update dev sha256 s j bytes).2 ≡ written)
    update-failed h =
        let jw : Journal = record j { next_block = address } in
        let (same, there) =
          finish-failed jw entry (dev.write_blocks s address (encode entry))
            (λ q. h (ap (λ t. t.0) step ∙ q)) in
        (ap (λ t. t.1) step ∙ same, ap (λ t. t.2) step ∙ there)
