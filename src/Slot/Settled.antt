-- ===== src/Slot/Settled.antt =====
-- trusted_applet/internal/storage/slots/slots.go: what a restart finds in a slot.
use mathlib.Core.Path.{ap₂}
use armored_witness_applet.Prelude.{
  ℕ, ◌+◌, ◌*◌, ◌≤◌, ◌<◌, ◌≡◌, refl, sym, ◌∙◌, ◌⊎◌, List, some, word,
}
use armored_witness_applet.Result.{ok}
use armored_witness_applet.Device.{Device}
use armored_witness_applet.Device.Laws.{IsBlockStore}
use armored_witness_applet.Journal.{Journal, size}
use armored_witness_applet.Journal.Open.{open_journal, max_data}
use armored_witness_applet.Journal.Update.{current_data, next_entry, write_block, update}
use armored_witness_applet.Journal.Space.{IsPlaced}
use armored_witness_applet.Journal.Reopen.{
  IsWritten, IsBlank, Stops, rewound, Chain-frame, open_journal-IsWritten,
}
use armored_witness_applet.Journal.Durable.{NothingForged}
use armored_witness_applet.Slot.{Slot}

-- What OpenJournal finds in the blocks of a slot: data and its token.
pub record IsStored {S : Type 0} (dev : Device S) (sha256 : List ℕ → List ℕ) (max_alloc : ℕ) (s : S)
    (x : Slot) (d : List ℕ) (t : ℕ) : Type 0 where
  pub journal : Journal
  pub opens : open_journal dev sha256 max_alloc s x.start x.extent ≡ ok journal
  pub holds : current_data journal ≡ (d, t)

-- The block behind the last of a slot.
abbrev pub end : Slot → ℕ
end x = x.start + x.extent

-- Slots that share no block.
abbrev pub Apart : Slot → Slot → Type 0
Apart x y = (end x ≤ y.start) ⊎ (end y ≤ x.start)

module _ {S : Type 0} (dev : Device S) (capacity : ℕ) (block : S → ℕ → List ℕ)
    (sha256 : List ℕ → List ℕ) (max_alloc : ℕ) where
  -- A slot that is open, with its journal in step with the storage.
  pub record IsInStep (s : S) (x : Slot) (j : Journal) : Type 0 where
    pub attached : x.journal ≡ some j
    pub start : j.start ≡ x.start
    pub extent : j.extent ≡ x.extent
    pub placed : IsPlaced dev.block_size (end x) j
    pub inside : end x ≤ capacity
    pub fits : end x * dev.block_size ≤ word
    pub max : j.max_data_bytes ≡ max_data dev.block_size j.extent
    pub old :
        (IsWritten dev block sha256 max_alloc (end x) s j)
        ⊎ (IsBlank dev block sha256 max_alloc (end x) s j)

  -- A slot, open or not, whose blocks hold the journal `k` in full, with no newer record behind it.
  pub record IsSettled (s : S) (x : Slot) (k : Journal) : Type 0 where
    pub start : k.start ≡ x.start
    pub extent : k.extent ≡ x.extent
    pub inside : end x ≤ capacity
    pub fits : end x * dev.block_size ≤ word
    pub small : end x < word
    pub max : k.max_data_bytes ≡ max_data dev.block_size k.extent
    pub written : IsWritten dev block sha256 max_alloc (end x) s k
    pub stops : Stops dev block sha256 max_alloc (end x) s written.tail k.current.revision

  -- What a write leaves to a settled slot: none of the blocks before its records becomes one by
  -- chance, and none newer comes up behind them.
  pub record Spares (s s' : S) (x : Slot) (k : Journal) (y : IsSettled s x k) : Type 0 where
    pub forged : NothingForged dev sha256 max_alloc k.start y.written.base s s'
    pub stops : Stops dev block sha256 max_alloc (end x) s' y.written.tail k.current.revision

  -- What the update of the journal of a slot with the data `p` leaves: none of the blocks before the
  -- new record becomes one by chance, and there is none of its revision or later behind it.
  pub record Lands (s : S) (x : Slot) (j : Journal) (p : List ℕ) : Type 0 where
    pub forged :
        NothingForged dev sha256 max_alloc j.start
          (write_block dev.block_size j (size (next_entry sha256 j p)))
          s
          (update dev sha256 s j p).2
    pub stops :
        Stops dev block sha256 max_alloc
          (end x)
          (update dev sha256 s j p).2
          (update dev sha256 s j p).1.next_block
          (j.current.revision + 1)

  -- A slot that is open with data and its token, and keeps them over a restart.
  pub record IsSaved (s : S) (x : Slot) (d : List ℕ) (t : ℕ) : Type 0 where
    pub journal : Journal
    pub step : IsInStep s x journal
    pub settled : IsSettled s x journal
    pub holds : current_data journal ≡ (d, t)

module _ {S : Type 0} {dev : Device S} {capacity : ℕ} {Valid : S → Type 0} {block : S → ℕ → List ℕ}
    (laws : IsBlockStore dev capacity Valid block) (sha256 : List ℕ → List ℕ) (max_alloc : ℕ) where
  -- What a restart finds depends on the blocks of the slot only.
  pub IsStored-blocks :
      (s : S) (x y : Slot) (d : List ℕ) (t : ℕ)
      → x.start ≡ y.start
      → x.extent ≡ y.extent
      → IsStored dev sha256 max_alloc s x d t
      → IsStored dev sha256 max_alloc s y d t
  IsStored-blocks s x y d t from len o = record {
    journal = o.journal;
    opens = ap₂ (open_journal dev sha256 max_alloc s) (sym from) (sym len) ∙ o.opens;
    holds = o.holds;
  }

  -- What OpenJournal returns for a slot that is settled.
  pub IsSettled-opens :
      (s : S) (x : Slot) (k : Journal)
      → Valid s
      → IsSettled dev capacity block sha256 max_alloc s x k
      → open_journal dev sha256 max_alloc s x.start x.extent ≡ ok (rewound (end x) k)
  IsSettled-opens s x k valid y =
      ap₂ (open_journal dev sha256 max_alloc s) (sym y.start) (sym y.extent)
      ∙ open_journal-IsWritten laws sha256 max_alloc (end x) s valid y.inside y.fits y.small k
          (ap₂ (◌+◌) y.start y.extent) y.max y.written y.stops

  -- What a restart finds in a slot that is settled.
  pub IsSettled-IsStored :
      (s : S) (x : Slot) (k : Journal)
      → Valid s
      → IsSettled dev capacity block sha256 max_alloc s x k
      → IsStored dev sha256 max_alloc s x k.current.bytes k.current.revision
  unfolding current_data
  IsSettled-IsStored s x k valid y = record {
    journal = rewound (end x) k;
    opens = IsSettled-opens s x k valid y;
    holds = refl;
  }

  pub IsSaved-IsStored :
      (s : S) (x : Slot) (d : List ℕ) (t : ℕ)
      → Valid s
      → IsSaved dev capacity block sha256 max_alloc s x d t
      → IsStored dev sha256 max_alloc s x d t
  unfolding current_data
  IsSaved-IsStored s x d t valid o =
      let y = IsSettled-IsStored s x o.journal valid o.settled in
      record { journal = y.journal; opens = y.opens; holds = y.holds ∙ o.holds }

  -- A write that leaves the records of a slot alone leaves it settled.
  pub IsSettled-frame :
      (s s' : S) (x : Slot) (k : Journal) (y : IsSettled dev capacity block sha256 max_alloc s x k)
      → ((i : ℕ) → y.written.base ≤ i → i < y.written.tail → block s' i ≡ block s i)
      → Spares dev capacity block sha256 max_alloc s s' x k y
      → IsSettled dev capacity block sha256 max_alloc s' x k
  IsSettled-frame s s' x k y same spares = record {
    start = y.start;
    extent = y.extent;
    inside = y.inside;
    fits = y.fits;
    small = y.small;
    max = y.max;
    written = record {
      base = y.written.base;
      tail = y.written.tail;
      from = y.written.from;
      skipped = λ i from to. spares.forged i from to (y.written.skipped i from to);
      chain = Chain-frame laws sha256 max_alloc s s' y.written.base same y.written.chain;
      inside = y.written.inside;
      next = y.written.next;
    };
    stops = spares.stops;
  }
