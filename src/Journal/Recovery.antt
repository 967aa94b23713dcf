-- ===== src/Journal/Recovery.antt =====
-- trusted_applet/internal/storage/slots/journal.go: what OpenJournal finds after a failed write.
use mathlib.Core.Path.{subst}
use armored_witness_applet.Prelude.{
  ℕ, ◌+◌, ◌-◌, ◌*◌, ◌%◌, ◌≤◌, ◌<◌, ◌≡◌, ◌≢◌, refl, sym, ap, ◌∙◌, inl, inr, List, arith, length,
  word, leb, if◌then◌else◌, Bool-cases, leb→le,
}
use armored_witness_applet.Result.{ok}
use armored_witness_applet.Device.{Device}
use armored_witness_applet.Device.Laws.{IsBlockStore}
use armored_witness_applet.Journal.{Entry, Journal, size}
use armored_witness_applet.Journal.Open.{open_journal, max_data}
use armored_witness_applet.Journal.Update.{next_entry, write_block, update}
use armored_witness_applet.Journal.Layout.{Holds}
use armored_witness_applet.Journal.Chain.{Chain, one, more, Unreadable, Chain-le}
use armored_witness_applet.Journal.Space.{IsPlaced, Place, behind, wrapped, blocks, wrapped_clear}
use armored_witness_applet.Journal.Updating.{
  Accepts, Writes, admitted_bounds, written, update-Writes, update-failed,
}
use armored_witness_applet.Journal.Reopen.{
  IsWritten, Stops, rewound, Chain-frame, open_journal-IsWritten,
}

module _ {S : Type 0} {dev : Device S} {block : S → ℕ → List ℕ} {sha256 : List ℕ → List ℕ}
    {max_alloc : ℕ} where
  -- The block that the last record of a run begins at.
  abbrev pub last_start :
      {s : S} {base b : ℕ} {e : Entry} → Chain dev block sha256 max_alloc s base b e → ℕ
  last_start {base = base} (one n h p) = base
  last_start (more {a = a} n c h newer p) = a

  last_start-le :
      {s : S} {base b : ℕ} {e : Entry} (c : Chain dev block sha256 max_alloc s base b e)
      → last_start c ≤ b
  last_start-le (one n h p) = omega arith
  last_start-le (more n c h newer p) = omega arith

  -- The block from `cut` on that a record of the run begins at.
  abbrev pub boundary :
      {s : S} {base b : ℕ} {e : Entry} → ℕ → Chain dev block sha256 max_alloc s base b e → ℕ
  boundary {base = base} cut (one n h p) = base
  boundary cut (more {a = a} n c h newer p) =
      let rest = boundary cut c in if leb cut (last_start c) then rest else a

  -- The records from there on are a run, too.
  Chain-boundary :
      {s : S} {base b : ℕ} {e : Entry} (cut : ℕ) (c : Chain dev block sha256 max_alloc s base b e)
      → cut ≤ last_start c
      → (cut ≤ boundary cut c)
        × (base ≤ boundary cut c)
        × (boundary cut c ≤ last_start c)
        × Chain dev block sha256 max_alloc s (boundary cut c) b e
  Chain-boundary cut (one n h p) le = (le, omega arith, omega arith, one n h p)
  Chain-boundary cut (more {a = a} n c h newer p) le = elim (Bool-cases (leb cut (last_start c))) [
    | inl t ↦ rw t (
        let (from, base_le, to, rest) = Chain-boundary cut c (leb→le cut (last_start c) t) in
        (from, base_le, omega (arith, last_start-le c), more n rest h newer p))
    | inr f ↦ rw f (le, Chain-le c, omega arith, one n h p)
  ]

  -- The last record of a run.
  last-Holds :
      {s : S} {base b : ℕ} {e : Entry} (c : Chain dev block sha256 max_alloc s base b e)
      → (n : ℕ) × Holds dev block sha256 max_alloc s (last_start c) n e × (b ≡ last_start c + n)
  last-Holds (one n h p) = (n, h, p)
  last-Holds (more n c h newer p) = (n, h, p)

module _ {S : Type 0} {dev : Device S} {capacity : ℕ} {Valid : S → Type 0} {block : S → ℕ → List ℕ}
    (laws : IsBlockStore dev capacity Valid block) (sha256 : List ℕ → List ℕ) (max_alloc : ℕ)
    (top : ℕ) (top_in : top ≤ capacity) (s : S) (valid : Valid s) (j : Journal)
    (placed : IsPlaced dev.block_size top j) (bytes : List ℕ)
    (accepts : Accepts sha256 max_alloc j bytes) where
  abbrev new_size : ℕ
  new_size = size (next_entry sha256 j bytes)

  abbrev after : S
  after = written laws sha256 max_alloc top top_in s valid j placed bytes accepts

  writes :
      Writes laws sha256 max_alloc top s j
        (next_entry sha256 j bytes)
        (write_block dev.block_size j new_size)
        (blocks dev.block_size new_size)
        after
  writes = update-Writes laws sha256 max_alloc top top_in s valid j placed bytes accepts

  -- A record that does not go behind the last one goes to the start.
  moved_to_start :
      (w : IsWritten dev block sha256 max_alloc top s j)
      → write_block dev.block_size j new_size ≢ j.next_block
      → (write_block dev.block_size j new_size ≡ j.start)
        × ((top - j.next_block) * dev.block_size < new_size)
        × (j.next_block ≡ w.tail)
  moved_to_start w moved = go writes.place
    where
      go :
          Place dev.block_size top j new_size (write_block dev.block_size j new_size)
          → (write_block dev.block_size j new_size ≡ j.start)
            × ((top - j.next_block) * dev.block_size < new_size)
            × (j.next_block ≡ w.tail)
      go (behind e fit) = absurd (moved e)
      go (wrapped e full) = elim w.next [
        | inl next ↦ (e, full, next)
        | inr (back, end) ↦ absurd (moved (e ∙ sym back))
      ]

  -- The write leaves the records behind it, the last one among them.
  survives :
      j.extent % 3 ≢ 1
      → (w : IsWritten dev block sha256 max_alloc top s j) → size j.current ≤ j.max_data_bytes + 48
      → write_block dev.block_size j new_size ≢ j.next_block
      → (j.start ≤ boundary (j.start + blocks dev.block_size new_size) w.chain)
        × Chain dev block sha256 max_alloc after
            (boundary (j.start + blocks dev.block_size new_size) w.chain)
            w.tail
            j.current
  survives thirds w small moved =
      let (at, full, next) = moved_to_start w moved in
      let (m, held, e) = last-Holds w.chain in
      let clear : j.start + blocks dev.block_size new_size ≤ last_start w.chain =
        wrapped_clear dev.block_size top j new_size (blocks dev.block_size new_size)
          (last_start w.chain) m (size j.current) placed thirds
          (omega (arith, admitted_bounds (length bytes) j.max_data_bytes accepts.admitted)) small
          writes.covers held.covers (next ∙ e) full in
      let (cut_le, base_le, to, rest) =
        Chain-boundary (j.start + blocks dev.block_size new_size) w.chain clear in
      (
        omega (arith, w.from, base_le),
        Chain-frame laws sha256 max_alloc s after
            (boundary (j.start + blocks dev.block_size new_size) w.chain)
            (λ i from to.
              writes.frame i (inr (omega (arith, at, cut_le))) (omega (arith, w.inside)))
            rest,
      )

  -- A failed update whose record wraps to the start of a journal of 3k or 3k+2 blocks: OpenJournal
  -- finds the previous entry, and the journal stands behind its record. No block that the torn
  -- record or the rest of a record cut by it takes may hold a record by chance, nor the block behind
  -- the previous entry one of its revision or later.
  pub open_journal-update_failed :
      top * dev.block_size ≤ word
      → j.max_data_bytes ≡ max_data dev.block_size j.extent
      → j.extent % 3 ≢ 1
      → (w : IsWritten dev block sha256 max_alloc top s j) → size j.current ≤ j.max_data_bytes + 48
      → write_block dev.block_size j new_size ≢ j.next_block
      → (update dev sha256 s j bytes).0 ≢ ok tt
      → ((i : ℕ)
          → j.start ≤ i
          → i < boundary (j.start + blocks dev.block_size new_size) w.chain
          → Unreadable dev sha256 max_alloc (update dev sha256 s j bytes).2 i)
      → Stops dev block sha256 max_alloc top
          (update dev sha256 s j bytes).2
          w.tail
          j.current.revision
      → (open_journal dev sha256 max_alloc (update dev sha256 s j bytes).2 j.start j.extent
          ≡ ok (rewound top (record j { next_block = w.tail })))
        × ((update dev sha256 s j bytes).1.current ≡ j.current)
  open_journal-update_failed fits max thirds w small moved failed torn stop =
      let (kept, there) =
        update-failed laws sha256 max_alloc top top_in s valid j placed bytes accepts failed in
      let (from, rest) = survives thirds w small moved in
      let w' : IsWritten dev block sha256 max_alloc top after (record j { next_block = w.tail }) =
        record {
          base = boundary (j.start + blocks dev.block_size new_size) w.chain;
          tail = w.tail;
          from = from;
          skipped = λ i a b. subst (λ t. Unreadable dev sha256 max_alloc t i) there (torn i a b);
          chain = rest;
          inside = w.inside;
          next = inl refl;
        } in
      (
        ap (λ t. open_journal dev sha256 max_alloc t j.start j.extent) there
            ∙ open_journal-IsWritten laws sha256 max_alloc top after writes.still_valid top_in fits
                placed.top_small (record j { next_block = w.tail }) placed.ends max w'
                (subst (λ t. Stops dev block sha256 max_alloc top t w.tail j.current.revision) there
                  stop),
        ap (λ (t : Journal). t.current) kept,
      )
