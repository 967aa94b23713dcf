-- ===== src/Journal/Durable.antt =====
-- trusted_applet/internal/storage/slots/journal.go: a restart after an update.
use mathlib.Core.Path.{subst, subst₂}
use armored_witness_applet.Prelude.{
  ℕ, ◌+◌, ◌*◌, ◌%◌, ◌≤◌, ◌<◌, ◌≡◌, refl, sym, ap, ◌∙◌, ◌⊎◌, inl, inr, List, arith, word,
}
use armored_witness_applet.Result.{Result, ok}
use armored_witness_applet.Device.{Device}
use armored_witness_applet.Device.Laws.{IsBlockStore}
use armored_witness_applet.Journal.{Entry, Journal, size}
use armored_witness_applet.Journal.Open.{open_journal, max_data}
use armored_witness_applet.Journal.Update.{current_data, next_entry, write_block, update}
use armored_witness_applet.Journal.Layout.{Holds, Holds-pos}
use armored_witness_applet.Journal.Chain.{one, more, Unreadable, Chain-le}
use armored_witness_applet.Journal.Space.{IsPlaced, Place, behind, wrapped}
use armored_witness_applet.Journal.Updating.{
  Accepts, Writes, entry, address, count, written, update-Writes, update-ok,
}
use armored_witness_applet.Journal.Reopen.{
  IsWritten, IsBlank, Stops, rewound, Chain-frame, open_journal-IsWritten,
}

module _ {S : Type 0} (dev : Device S) (sha256 : List ℕ → List ℕ) (max_alloc : ℕ) where
  -- What a write from block `to` on does not do by chance: turn a block before it, which held no
  -- record, into one that does.
  abbrev pub NothingForged : ℕ → ℕ → S → S → Type 0
  NothingForged from to s s' =
      (i : ℕ)
      → from ≤ i
      → i < to
      → Unreadable dev sha256 max_alloc s i
      → Unreadable dev sha256 max_alloc s' i

module _ {S : Type 0} {dev : Device S} {capacity : ℕ} {Valid : S → Type 0} {block : S → ℕ → List ℕ}
    (laws : IsBlockStore dev capacity Valid block) (sha256 : List ℕ → List ℕ) (max_alloc : ℕ)
    (top : ℕ) (top_in : top ≤ capacity) (s : S) (valid : Valid s) (j : Journal)
    (placed : IsPlaced dev.block_size top j) (bytes : List ℕ)
    (accepts : Accepts sha256 max_alloc j bytes) where
  abbrev new_entry : Entry
  new_entry = entry laws sha256 max_alloc top top_in s valid j placed bytes accepts

  abbrev at : ℕ
  at = address laws sha256 max_alloc top top_in s valid j placed bytes accepts

  abbrev taken : ℕ
  taken = count laws sha256 max_alloc top top_in s valid j placed bytes accepts

  abbrev after : S
  after = written laws sha256 max_alloc top top_in s valid j placed bytes accepts

  writes : Writes laws sha256 max_alloc top s j new_entry at taken after
  writes = update-Writes laws sha256 max_alloc top top_in s valid j placed bytes accepts

  -- The journal in memory after the update.
  abbrev pub updated : Journal
  updated = record j { next_block = at + taken; current = new_entry }

  Holds-IsWritten :
      at ≡ j.start
      → Holds dev block sha256 max_alloc after at taken new_entry
      → IsWritten dev block sha256 max_alloc top after updated
  Holds-IsWritten e h = record {
    base = at;
    tail = at + taken;
    from = omega arith;
    skipped = λ i from to. absurd (omega arith);
    chain = one taken h refl;
    inside = writes.to;
    next = inl refl;
  }

  -- The record behind the last one extends the run.
  extend :
      NothingForged dev sha256 max_alloc j.start at s after
      → Holds dev block sha256 max_alloc after at taken new_entry
      → (w : IsWritten dev block sha256 max_alloc top s j) → at ≡ w.tail
      → IsWritten dev block sha256 max_alloc top after updated
  extend sure h w e =
      let before : w.base ≤ at = omega (arith, e, Chain-le w.chain) in
      record {
        base = w.base;
        tail = at + taken;
        from = w.from;
        skipped = λ i from to. sure i from (omega arith) (w.skipped i from to);
        chain =
            more taken
              (Chain-frame laws sha256 max_alloc s after w.base
                (λ i from to. writes.frame i (inl (omega arith)) (omega (arith, writes.to)))
                w.chain)
              (subst (λ k. Holds dev block sha256 max_alloc after k taken new_entry) e h)
              (omega (arith, accepts.revision)) (ap (λ k. k + taken) e);
        inside = writes.to;
        next = inl refl;
      }

  update-IsWritten :
      (IsWritten dev block sha256 max_alloc top s j) ⊎ (IsBlank dev block sha256 max_alloc top s j)
      → NothingForged dev sha256 max_alloc j.start at s after
      → Holds dev block sha256 max_alloc after at taken new_entry
      → IsWritten dev block sha256 max_alloc top after updated
  update-IsWritten old sure h = go old writes.place
    where
      go :
          (IsWritten dev block sha256 max_alloc top s j)
            ⊎ (IsBlank dev block sha256 max_alloc top s j)
          → Place dev.block_size top j (size new_entry) at
          → IsWritten dev block sha256 max_alloc top after updated
      go old (wrapped e full) = Holds-IsWritten e h
      go (inr blank) (behind e fit) = Holds-IsWritten (e ∙ blank.next) h
      go (inl w) (behind e fit) = elim w.next [
        | inr (back, full) ↦ Holds-IsWritten (e ∙ back) h
        | inl next ↦ extend sure h w (e ∙ next)
      ]

  -- The run ends behind the new record.
  pub update-tail :
      (w : IsWritten dev block sha256 max_alloc top after updated)
      → Holds dev block sha256 max_alloc after at taken new_entry
      → at + taken ≡ w.tail
  update-tail w held =
      let some : 0 < taken = Holds-pos laws sha256 max_alloc after at taken new_entry held in
      elim w.next [ inl e ↦ e | inr (back, full) ↦ absurd (omega (arith, some, back, writes.from)) ]

  pub update-written :
      (IsWritten dev block sha256 max_alloc top s j) ⊎ (IsBlank dev block sha256 max_alloc top s j)
      → NothingForged dev sha256 max_alloc j.start at s after
      → (update dev sha256 s j bytes).0 ≡ ok tt
      → (update dev sha256 s j bytes ≡ (ok tt, updated, after))
        × IsWritten dev block sha256 max_alloc top after updated
  update-written old sure done =
      let (same, held) =
        update-ok laws sha256 max_alloc top top_in s valid j placed bytes accepts done in
      (same, update-IsWritten old sure held)

  -- After an update that succeeded, OpenJournal returns the journal as it is in memory, up to the
  -- wrap of the next block to the start, and its data is the new data under the next revision. The
  -- journal was in step with the storage, the write made no record before it by chance, and behind
  -- the new record there is none of its revision or later.
  pub open_journal-update :
      top * dev.block_size ≤ word
      → j.max_data_bytes ≡ max_data dev.block_size j.extent
      → (IsWritten dev block sha256 max_alloc top s j)
        ⊎ (IsBlank dev block sha256 max_alloc top s j)
      → NothingForged dev sha256 max_alloc j.start
          (write_block dev.block_size j (size (next_entry sha256 j bytes)))
          s
          (update dev sha256 s j bytes).2
      → Stops dev block sha256 max_alloc top
          (update dev sha256 s j bytes).2
          (update dev sha256 s j bytes).1.next_block
          (j.current.revision + 1)
      → (update dev sha256 s j bytes).0 ≡ ok tt
      → (open_journal dev sha256 max_alloc (update dev sha256 s j bytes).2 j.start j.extent
          ≡ ok (rewound top (update dev sha256 s j bytes).1))
        × (current_data (update dev sha256 s j bytes).1 ≡ (bytes, j.current.revision + 1))
  unfolding current_data
  open_journal-update fits max old sure stop done =
      let same : update dev sha256 s j bytes ≡ (ok tt, updated, after) =
        (update-ok laws sha256 max_alloc top top_in s valid j placed bytes accepts done).0 in
      let state : (update dev sha256 s j bytes).2 ≡ after = ap (λ t. t.2) same in
      let revision : (j.current.revision + 1) % word ≡ j.current.revision + 1 =
        omega (arith, accepts.revision) in
      let (_, w) =
        update-written old (subst (NothingForged dev sha256 max_alloc j.start at s) state sure)
          done in
      let held : Holds dev block sha256 max_alloc after at taken new_entry =
        (update-ok laws sha256 max_alloc top top_in s valid j placed bytes accepts done).1 in
      let tail : at + taken ≡ w.tail = update-tail w held in
      let stop' : Stops dev block sha256 max_alloc top after (at + taken) (j.current.revision + 1) =
        subst
          (λ (t : Result (Unit {0}) × Journal × S).
            Stops dev block sha256 max_alloc top t.2 t.1.next_block (j.current.revision + 1))
          same stop in
      let opened : open_journal dev sha256 max_alloc after j.start j.extent
          ≡ ok (rewound top updated) =
        open_journal-IsWritten laws sha256 max_alloc top after writes.still_valid top_in fits
          placed.top_small updated placed.ends max w
          (subst₂ (Stops dev block sha256 max_alloc top after) tail (sym revision) stop') in
      subst
        (λ (t : Result (Unit {0}) × Journal × S).
          (open_journal dev sha256 max_alloc t.2 j.start j.extent ≡ ok (rewound top t.1))
          × (current_data t.1 ≡ (bytes, j.current.revision + 1)))
        (sym same) (opened, ap (λ r. (bytes, r)) revision)
