-- ===== src/Journal/Chain.antt =====
-- trusted_applet/internal/storage/slots/journal.go: the run of records that the scan of `init`
-- follows, and where it stops.
use native.Mathlib.Nat.{add-mul, mul-le-mul_right}
use armored_witness_applet.Prelude.{
  ℕ, zero, suc, ◌+◌, ◌*◌, ◌/◌, ◌%◌, ◌≤◌, ◌<◌, ◌≡◌, ap, ◌∙◌, ◌⊎◌, inl, inr, List, arith, word,
  lt→ltb,
}
use armored_witness_applet.Result.{Error, ok, err}
use armored_witness_applet.Device.{Device}
use armored_witness_applet.Device.Laws.{IsBlockStore}
use armored_witness_applet.Journal.{Entry, zero_entry, size, sub_word}
use armored_witness_applet.Journal.BlockReader.{Reader, new_block_reader}
use armored_witness_applet.Journal.Record.{unmarshal_entry}
use armored_witness_applet.Journal.Open.{Scan, continue, scan_entry, scan_round, scan}
use armored_witness_applet.Journal.Layout.{Holds, Holds-pos, unmarshal-Holds, next_lba}

module _ {S : Type 0} (dev : Device S) (sha256 : List ℕ → List ℕ) (max_alloc : ℕ) where
  -- What `unmarshalEntry` finds at a block.
  abbrev pub Unreadable : S → ℕ → Type 0
  Unreadable s lba =
      (x : Error) × (unmarshal_entry dev sha256 max_alloc s (new_block_reader dev lba) ≡ err x)

  abbrev pub Older : S → ℕ → ℕ → Type 0
  Older s lba revision =
      (e : Entry) × (br : Reader) × (unmarshal_entry dev sha256 max_alloc s
          (new_block_reader dev lba)
        ≡ ok (e, br))
      × (e.revision < revision)

module _ {S : Type 0} (dev : Device S) (block : S → ℕ → List ℕ) (sha256 : List ℕ → List ℕ)
    (max_alloc : ℕ) where
  -- Records from block `base` on, one behind the other and of growing revision: the last is that of
  -- the entry, and ends before the block.
  pub data Chain (s : S) (base : ℕ) : ℕ → Entry → Type 0 where
    one :
        {b : ℕ} {e : Entry} (n : ℕ)
        → Holds dev block sha256 max_alloc s base n e
        → b ≡ base + n
        → Chain s base b e
    more :
        {a b : ℕ} {l e : Entry} (n : ℕ)
        → Chain s base a l
        → Holds dev block sha256 max_alloc s a n e
        → l.revision < e.revision
        → b ≡ a + n
        → Chain s base b e

module _ {S : Type 0} {dev : Device S} {block : S → ℕ → List ℕ} {sha256 : List ℕ → List ℕ}
    {max_alloc : ℕ} where
  pub Chain-le :
      {s : S} {base b : ℕ} {e : Entry} → Chain dev block sha256 max_alloc s base b e → base ≤ b
  Chain-le (one n h p) = omega arith
  Chain-le (more n c h newer p) = omega (arith, Chain-le c)

  pub Chain-sound :
      {s : S} {base b : ℕ} {e : Entry}
      → Chain dev block sha256 max_alloc s base b e
      → 0 < e.revision
  Chain-sound (one n h p) = h.sound.revision_pos
  Chain-sound (more n c h newer p) = h.sound.revision_pos

module _ {S : Type 0} {dev : Device S} {capacity : ℕ} {Valid : S → Type 0} {block : S → ℕ → List ℕ}
    (laws : IsBlockStore dev capacity Valid block) (sha256 : List ℕ → List ℕ) (max_alloc : ℕ) where
  module _ (top : ℕ) (s : S) (valid : Valid s) (top_in : top ≤ capacity)
      (fits : top * dev.block_size ≤ word) (small : top < word) where
    -- A round of the scan at a newer record goes on behind it.
    scan_round-Holds :
        (lba n next : ℕ) (last e : Entry)
        → Holds dev block sha256 max_alloc s lba n e
        → lba + n ≤ top
        → last.revision < e.revision
        → scan_round dev sha256 max_alloc s (record { lba = lba; last = last; next_write = next })
          ≡ continue (record { lba = lba + n; last = e; next_write = lba + n })
    unfolding scan_round scan_entry
    scan_round-Holds lba n next last e h le newer =
        let (br, ran, place) =
          unmarshal-Holds laws sha256 max_alloc top s valid top_in fits lba n e h le in
        let within : (lba + n) * dev.block_size ≤ top * dev.block_size =
          mul-le-mul_right dev.block_size le in
        let behind : (sub_word br.pos 1 / dev.block_size + 1) % word ≡ lba + n =
          next_lba dev.block_size lba n (size e) br.pos laws.positive (omega arith) h.covers
            (omega (arith, add-mul lba n dev.block_size)) (omega arith) place in
        rw (ran, lt→ltb last.revision e.revision newer, behind)

    scan-continue :
        (f : ℕ) (c c' : Scan)
        → c.lba < top
        → scan_round dev sha256 max_alloc s c ≡ continue c'
        → scan dev sha256 max_alloc (suc f) s top c ≡ scan dev sha256 max_alloc f s top c'
    unfolding scan
    scan-continue f c c' h e = ground (arith, e)

    scan-Holds :
        (f a b n next : ℕ) (l e : Entry)
        → Holds dev block sha256 max_alloc s a n e
        → l.revision < e.revision
        → b ≡ a + n
        → b ≤ top
        → scan dev sha256 max_alloc (suc f) s top (record { lba = a; last = l; next_write = next })
          ≡ scan dev sha256 max_alloc f s top (record { lba = b; last = e; next_write = b })
    scan-Holds f a b n next l e h newer p le =
        let some : 0 < n = Holds-pos laws sha256 max_alloc s a n e h in
        rw p (
          scan-continue f (record { lba = a; last = l; next_write = next })
            (record { lba = a + n; last = e; next_write = a + n }) (omega arith)
            (scan_round-Holds a n next l e h (omega arith) newer))

    -- The scan follows a chain to its end, whatever fuel is left for the rest.
    pub scan-Chain :
        {base b : ℕ} {e : Entry} (next : ℕ)
        → Chain dev block sha256 max_alloc s base b e
        → b ≤ top
        → (k : ℕ) × (base + k ≤ b)
          × ((f : ℕ)
              → scan dev sha256 max_alloc
                  (k + f)
                  s
                  top
                  (record { lba = base; last = zero_entry; next_write = next })
                ≡ scan dev sha256 max_alloc f s top (record { lba = b; last = e; next_write = b }))
    scan-Chain {base} {b} {e} next (one n h p) le =
        let some : 0 < n = Holds-pos laws sha256 max_alloc s base n e h in
        (
          1,
          omega arith,
          λ f.
              ap
                (λ k.
                  scan dev sha256 max_alloc k s top
                    (record { lba = base; last = zero_entry; next_write = next }))
                (omega arith)
              ∙ scan-Holds f base b n next zero_entry e h h.sound.revision_pos p le,
        )
    scan-Chain {base} {b} {e} next (more {a = a} {l = l} n c h newer p) le =
        let some : 0 < n = Holds-pos laws sha256 max_alloc s a n e h in
        let (k, short, run) = scan-Chain next c (omega arith) in
        (
          suc k,
          omega arith,
          λ f.
              ap
                (λ m.
                  scan dev sha256 max_alloc m s top
                    (record { lba = base; last = zero_entry; next_write = next }))
                (omega arith)
              ∙ run (suc f)
              ∙ scan-Holds f a b n a l e h newer p le,
        )

    -- The scan stops behind the chain: at the end of the journal, at a block that holds no record,
    -- or at an older record.
    pub scan-stops :
        (f b : ℕ) (e : Entry)
        → 0 < e.revision
        → b ≤ top
        → (b < top → 0 < f)
        → (b ≡ top)
          ⊎ (Unreadable dev sha256 max_alloc s b ⊎ Older dev sha256 max_alloc s b e.revision)
        → scan dev sha256 max_alloc f s top (record { lba = b; last = e; next_write = b })
          ≡ ok (record { lba = b; last = e; next_write = b })
    unfolding scan scan_round scan_entry
    scan-stops zero b e pos le fuel stop = ground arith
    scan-stops (suc f) b e pos le fuel (inl end) = ground arith
    scan-stops (suc f) b e pos le fuel (inr (inl (x, r))) = ground (arith, r)
    scan-stops (suc f) b e pos le fuel (inr (inr (o, br, r, old))) = ground (arith, r, old)

    scan_round-Unreadable :
        (lba next : ℕ)
        → lba < top
        → Unreadable dev sha256 max_alloc s lba
        → scan_round dev sha256 max_alloc s
            (record { lba = lba; last = zero_entry; next_write = next })
          ≡ continue (record { lba = suc lba; last = zero_entry; next_write = next })
    unfolding scan_round scan_entry
    scan_round-Unreadable lba next h (x, r) =
        let e : (lba + 1) % word ≡ suc lba = omega arith in rw (r, e)

    -- Before the first record the scan goes from block to block.
    pub scan-skips :
        (m lba next : ℕ)
        → lba + m ≤ top
        → ((i : ℕ) → lba ≤ i → i < lba + m → Unreadable dev sha256 max_alloc s i)
        → (f : ℕ)
        → scan dev sha256 max_alloc
            (m + f)
            s
            top
            (record { lba = lba; last = zero_entry; next_write = next })
          ≡ scan dev sha256 max_alloc f s top
              (record { lba = lba + m; last = zero_entry; next_write = next })
    scan-skips zero lba next le h f =
        let e : zero + f ≡ f = omega arith in let e' : lba + zero ≡ lba = omega arith in rw (e, e')
    scan-skips (suc m) lba next le h f =
        let e : suc m + f ≡ suc (m + f) = omega arith in
        let e' : lba + suc m ≡ suc lba + m = omega arith in
        rw (e, e')
          (scan-continue (m + f) (record { lba = lba; last = zero_entry; next_write = next })
              (record { lba = suc lba; last = zero_entry; next_write = next }) (omega arith)
              (scan_round-Unreadable lba next (omega arith) (h lba (omega arith) (omega arith)))
            ∙ scan-skips m (suc lba) next (omega arith)
                (λ i from to. h i (omega arith) (omega arith)) f)
