-- ===== src/Journal/Reopen.antt =====
-- trusted_applet/internal/storage/slots/journal.go: what OpenJournal finds after an update.
use mathlib.Core.Path.{ap₂}
use armored_witness_applet.Prelude.{
  ℕ, ◌+◌, ◌-◌, ◌*◌, ◌%◌, ◌≤◌, ◌<◌, ◌≡◌, refl, sym, ap, ◌∙◌, ◌⊎◌, inl, inr, List, arith, word, leb,
  if◌then◌else◌,
}
use armored_witness_applet.Result.{ok}
use armored_witness_applet.Device.{Device}
use armored_witness_applet.Device.Stream.{stream_ext}
use armored_witness_applet.Device.Laws.{IsBlockStore}
use armored_witness_applet.Journal.{Entry, Journal, zero_entry}
use armored_witness_applet.Journal.Open.{scan, init, open_journal, max_data}
use armored_witness_applet.Journal.Layout.{Holds}
use armored_witness_applet.Journal.Chain.{
  Chain, one, more, Chain-le, Chain-sound, Unreadable, Older, scan-Chain, scan-stops, scan-skips,
}

-- The journal with its next block wrapped to the start, where it is the end.
abbrev pub rewound : ℕ → Journal → Journal
rewound top j = record j { next_block = if leb top j.next_block then j.start else j.next_block }

module _ {S : Type 0} (dev : Device S) (block : S → ℕ → List ℕ) (sha256 : List ℕ → List ℕ)
    (max_alloc : ℕ) where
  -- The storage holds the journal in memory: from block `base` on a run of records that ends with
  -- the current entry before block `tail`, and no record before it.
  pub record IsWritten (top : ℕ) (s : S) (j : Journal) : Type 0 where
    pub base : ℕ
    pub tail : ℕ
    pub from : j.start ≤ base
    pub skipped : (i : ℕ) → j.start ≤ i → i < base → Unreadable dev sha256 max_alloc s i
    pub chain : Chain dev block sha256 max_alloc s base tail j.current
    pub inside : tail ≤ top
    pub next : (j.next_block ≡ tail) ⊎ ((j.next_block ≡ j.start) × (tail ≡ top))

  -- The storage holds no record of the journal.
  pub record IsBlank (top : ℕ) (s : S) (j : Journal) : Type 0 where
    pub none : (i : ℕ) → j.start ≤ i → i < top → Unreadable dev sha256 max_alloc s i
    pub current : j.current ≡ zero_entry
    pub next : j.next_block ≡ j.start

  -- Behind the last record there is the end of the journal, no record, or an older one.
  abbrev pub Stops : ℕ → S → ℕ → ℕ → Type 0
  Stops top s lba revision =
      (lba ≡ top)
      ⊎ (Unreadable dev sha256 max_alloc s lba ⊎ Older dev sha256 max_alloc s lba revision)

module _ {S : Type 0} {dev : Device S} {capacity : ℕ} {Valid : S → Type 0} {block : S → ℕ → List ℕ}
    (laws : IsBlockStore dev capacity Valid block) (sha256 : List ℕ → List ℕ) (max_alloc : ℕ) where
  -- A write elsewhere leaves a record, and a run of records, as they are.
  Holds-frame :
      (s s' : S) (lba n : ℕ) (e : Entry)
      → ((i : ℕ) → lba ≤ i → i < lba + n → block s' i ≡ block s i)
      → Holds dev block sha256 max_alloc s lba n e
      → Holds dev block sha256 max_alloc s' lba n e
  Holds-frame s s' lba n e same h = record {
    sound = h.sound;
    covers = h.covers;
    stored =
        stream_ext (block s') (block s) lba n (λ i q. same (lba + i) (omega arith) (omega arith))
        ∙ h.stored;
  }

  pub Chain-frame :
      (s s' : S) (base : ℕ) {b : ℕ} {e : Entry}
      → ((i : ℕ) → base ≤ i → i < b → block s' i ≡ block s i)
      → Chain dev block sha256 max_alloc s base b e
      → Chain dev block sha256 max_alloc s' base b e
  Chain-frame s s' base same (one n h p) =
      one n (Holds-frame s s' base n _ (λ i from to. same i from (omega arith)) h) p
  Chain-frame s s' base same (more n c h newer p) =
      let from_base = Chain-le c in
      more n (Chain-frame s s' base (λ i from to. same i from (omega arith)) c)
        (Holds-frame s s' _ n _ (λ i from to. same i (omega (arith, from_base)) (omega arith)) h)
        newer p

  module _ (top : ℕ) (s : S) (valid : Valid s) (top_in : top ≤ capacity)
      (fits : top * dev.block_size ≤ word) (small : top < word) where
    -- The scan of `init` over a written journal ends behind its last record.
    scan-IsWritten :
        (j : Journal)
        → j.start + j.extent ≡ top
        → (w : IsWritten dev block sha256 max_alloc top s j)
        → Stops dev block sha256 max_alloc top s w.tail j.current.revision
        → scan dev sha256 max_alloc j.extent s top
            (record { lba = j.start; last = zero_entry; next_write = j.start })
          ≡ ok (record { lba = w.tail; last = j.current; next_write = w.tail })
    scan-IsWritten j e w stop =
        let m : ℕ = w.base - j.start in
        let (k, short, run) =
          scan-Chain laws sha256 max_alloc top s valid top_in fits small j.start w.chain w.inside in
        let f : ℕ = j.extent - m - k in
        let all : j.extent ≡ m + (k + f) = omega (arith, w.from, w.inside) in
        let base : j.start + m ≡ w.base = omega (arith, w.from) in
        ap
          (λ x.
            scan dev sha256 max_alloc x s top
              (record { lba = j.start; last = zero_entry; next_write = j.start }))
          all
        ∙ scan-skips laws sha256 max_alloc top s valid top_in fits small m j.start j.start
            (omega (arith, w.inside, short)) (λ i from to. w.skipped i from (omega (arith, base)))
            (k + f)
        ∙ ap
            (λ b.
              scan dev sha256 max_alloc (k + f) s top
                (record { lba = b; last = zero_entry; next_write = j.start }))
            base
        ∙ run f
        ∙ scan-stops laws sha256 max_alloc top s valid top_in fits small f w.tail j.current
            (Chain-sound w.chain) w.inside (λ q. omega arith) stop

    -- OpenJournal returns the journal that the storage holds, whatever was in memory before.
    pub open_journal-IsWritten :
        (j : Journal)
        → j.start + j.extent ≡ top
        → j.max_data_bytes ≡ max_data dev.block_size j.extent
        → (w : IsWritten dev block sha256 max_alloc top s j)
        → Stops dev block sha256 max_alloc top s w.tail j.current.revision
        → open_journal dev sha256 max_alloc s j.start j.extent ≡ ok (rewound top j)
    unfolding open_journal init
    open_journal-IsWritten j e m w stop =
        let end : (j.start + j.extent) % word ≡ top = omega arith in
        rw (end, scan-IsWritten j e w stop)
          (ap₂ (λ n d. ok (record j { next_block = n; max_data_bytes = d })) (place w.next) (sym m))
      where
        place :
            (j.next_block ≡ w.tail) ⊎ ((j.next_block ≡ j.start) × (w.tail ≡ top))
            → (if leb top w.tail then j.start else w.tail)
              ≡ (if leb top j.next_block then j.start else j.next_block)
        place (inl same) = rw same refl
        place (inr (back, full)) = ground (arith, Chain-le w.chain, w.from, back, full)
