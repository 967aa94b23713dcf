-- ===== src/Persistence/Blank.antt =====
-- trusted_applet/internal/storage/persistence.go: a slot whose blocks hold no record.
use armored_witness_applet.Prelude.{ℕ, ◌*◌, ◌≤◌, ◌<◌, ◌≡◌, refl, inr, List, [], word}
use armored_witness_applet.Device.{Device}
use armored_witness_applet.Device.Laws.{IsBlockStore}
use armored_witness_applet.Journal.Update.{current_data}
use armored_witness_applet.Journal.Chain.{Unreadable}
use armored_witness_applet.Journal.Blank.{fresh, fresh-IsPlaced, open_journal-blank}
use armored_witness_applet.Slot.{Slot}
use armored_witness_applet.Slot.Settled.{IsStored, end, IsInStep}
use armored_witness_applet.Persistence.Restart.{with_journal}

pub fresh_reads : (bs start extent : ℕ) → current_data (fresh bs start extent) ≡ ([], 0)
unfolding current_data
fresh_reads bs start extent = refl

-- The blocks of a slot: inside the storage, with the bytes of three headers, below 2^32.
pub record IsRoom (bs capacity : ℕ) (x : Slot) : Type 0 where
  pub inside : end x ≤ capacity
  pub fits : end x * bs ≤ word
  pub small : end x < word
  pub extent_small : x.extent * bs < word
  pub headers : 144 ≤ x.extent * bs

module _ {S : Type 0} {dev : Device S} {capacity : ℕ} {Valid : S → Type 0} {block : S → ℕ → List ℕ}
    (laws : IsBlockStore dev capacity Valid block) (sha256 : List ℕ → List ℕ) (max_alloc : ℕ) where
  abbrev pub blank-IsStored :
      (s : S) (x : Slot)
      → Valid s
      → IsRoom dev.block_size capacity x
      → ((i : ℕ) → x.start ≤ i → i < end x → Unreadable dev sha256 max_alloc s i)
      → IsStored dev sha256 max_alloc s x [] 0
  blank-IsStored s x valid room blank = record {
    journal = fresh dev.block_size x.start x.extent;
    opens =
        open_journal-blank laws sha256 max_alloc (end x) s valid room.inside room.fits room.small
          x.start x.extent refl blank;
    holds = fresh_reads dev.block_size x.start x.extent;
  }

  pub blank-IsInStep :
      (s : S) (x : Slot)
      → IsRoom dev.block_size capacity x
      → ((i : ℕ) → x.start ≤ i → i < end x → Unreadable dev sha256 max_alloc s i)
      → let j = fresh dev.block_size x.start x.extent in
        IsInStep dev capacity block sha256 max_alloc s (with_journal dev sha256 max_alloc x j) j
  blank-IsInStep s x room blank = record {
    attached = refl;
    start = refl;
    extent = refl;
    placed =
        fresh-IsPlaced dev.block_size (end x) x.start x.extent laws.positive refl room.small
          room.extent_small room.headers;
    inside = room.inside;
    fits = room.fits;
    max = refl;
    old = inr (record { none = blank; current = refl; next = refl });
  }
