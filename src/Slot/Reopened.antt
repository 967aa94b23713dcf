-- ===== src/Slot/Reopened.antt =====
-- trusted_applet/internal/storage/slots/slots.go: what a restart finds in the slots after CheckAndWrite.
use mathlib.Core.Path.{subst, subst₂}
use armored_witness_applet.Prelude.{
  ℕ, ◌-◌, ◌*◌, ◌+◌, ◌%◌, ◌≤◌, ◌<◌, ◌≡◌, refl, sym, ap, ◌∙◌, ◌⊎◌, inl, inr, List, some, arith, word,
}
use armored_witness_applet.Result.{Result, ok, err, panic, out_of_fuel}
use armored_witness_applet.Device.{Device}
use armored_witness_applet.Device.Laws.{IsBlockStore}
use armored_witness_applet.Journal.{Entry, Journal, size}
use armored_witness_applet.Journal.Update.{current_data, next_entry, update, finish_update}
use armored_witness_applet.Journal.Updating.{
  Accepts, next_entry-IsSound, Writes, address, count, written, update-eq-write, update-Writes,
  update-ok,
}
use armored_witness_applet.Journal.RoundTrip.{encode}
use armored_witness_applet.Journal.Torn.{IsTorn, IsTorn-Unreadable}
use armored_witness_applet.Journal.Space.{Place, behind, wrapped}
use native.Mathlib.Nat.{zero-mul}
use armored_witness_applet.Journal.Reopen.{IsWritten, Stops}
use armored_witness_applet.Journal.Durable.{NothingForged, updated, update-tail, update-written}
use armored_witness_applet.Journal.Layout.{Holds}
use armored_witness_applet.Slot.{Slot, check_and_write}
use armored_witness_applet.Slot.Settled.{
  IsSaved, end, Apart, IsInStep, IsSettled, IsSettled-frame, Spares, Lands, IsStored,
  IsSettled-IsStored,
}

module _ {S : Type 0} (dev : Device S) (sha256 : List ℕ → List ℕ) where
  -- `CheckAndWrite` with the token of the journal is its `Update`.
  check_and_write-update :
      (s : S) (x : Slot) (j : Journal) (p : List ℕ)
      → x.journal ≡ some j
      → check_and_write dev sha256 s x j.current.revision p ≡ (
        (update dev sha256 s j p).0,
        record x { journal = some (update dev sha256 s j p).1 },
        (update dev sha256 s j p).2,
      )
  unfolding check_and_write
  check_and_write-update s x j p e = ground (arith, e)

module _ {S : Type 0} {dev : Device S} {capacity : ℕ} {Valid : S → Type 0} {block : S → ℕ → List ℕ}
    (laws : IsBlockStore dev capacity Valid block) (sha256 : List ℕ → List ℕ) (max_alloc : ℕ) where
  finish-store :
      (j : Journal) (e : Entry) (p : Result ℕ × S) → (finish_update dev sha256 j e p).2 ≡ p.1
  unfolding finish_update
  finish-store j e (ok m, s) = refl
  finish-store j e (err x, s) = refl
  finish-store j e (panic, s) = refl
  finish-store j e (out_of_fuel, s) = refl

  module _ (s : S) (valid : Valid s) (x : Slot) (j : Journal)
      (step : IsInStep dev capacity block sha256 max_alloc s x j) (p : List ℕ)
      (accepts : Accepts sha256 max_alloc j p) where
    -- The storage after the write, and the block that it begins at.
    abbrev after : S
    after = written laws sha256 max_alloc (end x) step.inside s valid j step.placed p accepts

    abbrev at : ℕ
    at = address laws sha256 max_alloc (end x) step.inside s valid j step.placed p accepts

    abbrev taken : ℕ
    taken = count laws sha256 max_alloc (end x) step.inside s valid j step.placed p accepts

    writes : Writes laws sha256 max_alloc (end x) s j (next_entry sha256 j p) at taken after
    writes = update-Writes laws sha256 max_alloc (end x) step.inside s valid j step.placed p accepts

    -- The storage after `Update`, whether it succeeds or fails.
    update-store : (update dev sha256 s j p).2 ≡ after
    update-store =
        ap (λ r. r.2) (update-eq-write laws sha256 max_alloc s j p accepts)
        ∙ finish-store (record j { next_block = at }) (next_entry sha256 j p)
            (dev.write_blocks s at (encode (next_entry sha256 j p)))

    pub check_and_write-store : (check_and_write dev sha256 s x j.current.revision p).2 ≡ after
    check_and_write-store =
        ap (λ r. r.2) (check_and_write-update dev sha256 s x j p step.attached) ∙ update-store

    pub check_and_write-Valid : Valid (check_and_write dev sha256 s x j.current.revision p).2
    check_and_write-Valid = subst Valid (sym check_and_write-store) writes.still_valid

    -- CheckAndWrite on one slot, whether it succeeds or fails, leaves the other slots settled: a
    -- restart finds in them what it would have found before. The write made no record by chance
    -- before those of the other slot, nor a newer one behind them.
    pub check_and_write-apart :
        (y : Slot) (k : Journal)
        → (kept : IsSettled dev capacity block sha256 max_alloc s y k) → Apart x y
        → Spares dev capacity block sha256 max_alloc s
            (check_and_write dev sha256 s x j.current.revision p).2
            y
            k
            kept
        → IsSettled dev capacity block sha256 max_alloc
            (check_and_write dev sha256 s x j.current.revision p).2
            y
            k
    check_and_write-apart y k kept apart spares =
        IsSettled-frame laws sha256 max_alloc s
          (check_and_write dev sha256 s x j.current.revision p).2 y k kept
          (λ i from to.
            ap (λ t. block t i) check_and_write-store
            ∙ writes.frame i
                (beside apart i (omega (arith, from, kept.start, kept.written.from))
                  (omega (arith, to, kept.written.inside)))
                (omega (arith, to, kept.inside, kept.written.inside)))
          spares
      where
        beside : Apart x y → (i : ℕ) → y.start ≤ i → i < end y → (i < at) ⊎ (at + taken ≤ i)
        beside (inl before) i from to = inr (omega (arith, writes.to))
        beside (inr above) i from to = inl (omega (arith, writes.from, step.start))

    -- A record that fits behind the last one goes there.
    behind_last :
        (kept : IsSettled dev capacity block sha256 max_alloc s x j)
        → size (next_entry sha256 j p) ≤ (end x - kept.written.tail) * dev.block_size
        → at ≡ kept.written.tail
    behind_last kept fit = go kept.written.next writes.place
      where
        go :
            (j.next_block ≡ kept.written.tail)
              ⊎ ((j.next_block ≡ j.start) × (kept.written.tail ≡ end x))
            → Place dev.block_size (end x) j (size (next_entry sha256 j p)) at
            → at ≡ kept.written.tail
        go (inl next) (behind e room) = e ∙ next
        go (inl next) (wrapped e full) =
            absurd (omega (arith, fit, full, ap (λ t. (end x - t) * dev.block_size) next))
        go (inr (back, full)) q =
            let none : (end x - kept.written.tail) * dev.block_size ≡ 0 =
              ap (λ t. t * dev.block_size) {x = end x - kept.written.tail} {y = 0}
                (omega (arith, full))
              ∙ zero-mul dev.block_size in
            absurd (omega (arith, none, fit))

    -- A write behind the last record that was torn leaves that record the last of the slot: a restart
    -- refuses the torn one for its digest, and finds the data from before.
    pub check_and_write-torn :
        (kept : IsSettled dev capacity block sha256 max_alloc s x j)
        → size (next_entry sha256 j p) ≤ (end x - kept.written.tail) * dev.block_size
        → NothingForged dev sha256 max_alloc j.start kept.written.base s
            (check_and_write dev sha256 s x j.current.revision p).2
        → IsTorn block sha256
            (check_and_write dev sha256 s x j.current.revision p).2
            kept.written.tail
            (end x)
            (next_entry sha256 j p)
        → IsStored dev sha256 max_alloc
            (check_and_write dev sha256 s x j.current.revision p).2
            x
            j.current.bytes
            j.current.revision
    check_and_write-torn kept fit forged torn =
        let s' : S = (check_and_write dev sha256 s x j.current.revision p).2 in
        IsSettled-IsStored laws sha256 max_alloc s' x j check_and_write-Valid (
          IsSettled-frame laws sha256 max_alloc s s' x j kept
            (λ i from to.
              ap (λ t. block t i) check_and_write-store
              ∙ writes.frame i (inl (omega (arith, behind_last kept fit)))
                  (omega (arith, kept.inside, kept.written.inside)))
            (record {
              forged = forged;
              stops = inr (
                  inl (
                    IsTorn-Unreadable laws sha256 max_alloc (end x) s' check_and_write-Valid
                      kept.inside kept.fits kept.written.tail (next_entry sha256 j p)
                      kept.written.inside (next_entry-IsSound sha256 max_alloc j p accepts) torn));
            }))

    -- the slot with the journal after an update that succeeded
    abbrev grown : Slot
    grown = record x {
      journal =
          some (updated laws sha256 max_alloc (end x) step.inside s valid j step.placed p accepts);
    }

    grown-IsInStep :
        IsWritten dev block sha256 max_alloc
          (end x)
          after
          (updated laws sha256 max_alloc (end x) step.inside s valid j step.placed p accepts)
        → IsInStep dev capacity block sha256 max_alloc after grown
            (updated laws sha256 max_alloc (end x) step.inside s valid j step.placed p accepts)
    grown-IsInStep w = record {
      attached = refl;
      start = step.start;
      extent = step.extent;
      placed = record {
        block_pos = step.placed.block_pos;
        ends = step.placed.ends;
        top_small = step.placed.top_small;
        extent_small = step.placed.extent_small;
        next_from = omega (arith, writes.from);
        next_to = writes.to;
        room = step.placed.room;
      };
      inside = step.inside;
      fits = step.fits;
      max = step.max;
      old = inl w;
    }

    abbrev new_journal : Journal
    new_journal = updated laws sha256 max_alloc (end x) step.inside s valid j step.placed p accepts

    saved :
        Holds dev block sha256 max_alloc after at taken (next_entry sha256 j p)
        → IsWritten dev block sha256 max_alloc (end x) after new_journal
        → Stops dev block sha256 max_alloc (end x) after (at + taken) (j.current.revision + 1)
        → IsSaved dev capacity block sha256 max_alloc after grown p (j.current.revision + 1)
    unfolding current_data
    saved held w stop =
        let revision : j.current.revision + 1 ≡ (j.current.revision + 1) % word =
          omega (arith, accepts.revision) in
        let tail : at + taken ≡ w.tail =
          update-tail laws sha256 max_alloc (end x) step.inside s valid j step.placed p accepts w
            held in
        record {
          journal = new_journal;
          step = grown-IsInStep w;
          settled = record {
            start = step.start;
            extent = step.extent;
            inside = step.inside;
            fits = step.fits;
            small = step.placed.top_small;
            max = step.max;
            written = w;
            stops = subst₂ (Stops dev block sha256 max_alloc (end x) after) tail revision stop;
          };
          holds = ap (λ r. (p, r)) (sym revision);
        }

    -- CheckAndWrite that succeeds on a slot in step with the storage saves the data under the next
    -- token, in the blocks of the slot: the slot is in step again, and a restart finds them. The
    -- write made no record by chance before the new one, and behind it there is none of its
    -- revision or later.
    pub check_and_write-saves :
        Lands dev capacity block sha256 max_alloc s x j p
        → (check_and_write dev sha256 s x j.current.revision p).0 ≡ ok tt
        → let (_, x', s') = check_and_write dev sha256 s x j.current.revision p in
          IsSaved dev capacity block sha256 max_alloc s' x' p (j.current.revision + 1)
          × (x'.start ≡ x.start)
          × (x'.extent ≡ x.extent)
    check_and_write-saves lands done =
        let call = check_and_write-update dev sha256 s x j p step.attached in
        let ran : (update dev sha256 s j p).0 ≡ ok tt = sym (ap (λ r. r.0) call) ∙ done in
        let (same, w) =
          update-written laws sha256 max_alloc (end x) step.inside s valid j step.placed p accepts
            step.old
            (subst (NothingForged dev sha256 max_alloc j.start at s) update-store lands.forged)
            ran in
        let (_, held) =
          update-ok laws sha256 max_alloc (end x) step.inside s valid j step.placed p accepts ran in
        let stop' : Stops dev block sha256 max_alloc (end x) after (at + taken)
            (j.current.revision + 1) =
          subst
            (λ (t : Result (Unit {0}) × Journal × S).
              Stops dev block sha256 max_alloc (end x) t.2 t.1.next_block (j.current.revision + 1))
            same lands.stops in
        let all : check_and_write dev sha256 s x j.current.revision p ≡ (ok tt, grown, after) =
          call
          ∙ ap
              (λ (t : Result (Unit {0}) × Journal × S). (t.0, record x { journal = some t.1 }, t.2))
              same in
        subst
          (λ (r : Result (Unit {0}) × Slot × S).
            IsSaved dev capacity block sha256 max_alloc r.2 r.1 p (j.current.revision + 1)
            × (r.1.start ≡ x.start)
            × (r.1.extent ≡ x.extent))
          (sym all) (saved held w stop', refl, refl)
