-- ===== src/Persistence/Recovered.antt =====
-- trusted_applet/internal/storage/persistence.go: a log after a restart.
use armored_witness_applet.Journal.Open.{max_data}
use armored_witness_applet.Journal.Blank.{max_data_lem}
use armored_witness_applet.Slots.LaidAgain.{num_slots-set}
use armored_witness_applet.Persistence.Allocation.{log_slot-known}
use armored_witness_applet.Persistence.Free.{has, values, free_list_lem}
use Prim.Native.String.{String}
use mathlib.Core.Path.{subst, subst₂, ap₂}
use armored_witness_applet.Prelude.{
  ℕ, ◌+◌, ◌*◌, ◌≤◌, ◌<◌, ◌≡◌, ◌≢◌, refl, sym, ap, ◌∙◌, ◌⊎◌, inl, inr, List, [], true, false, none,
  some, arith, get_elem?, set, replicate, word, leb, if◌then◌else◌, Bool-cases, leb→le,
  get_elem?-set_of_some, get_elem?-set_ne,
}
use armored_witness_applet.Result.{Result, ok}
use armored_witness_applet.Device.{Device}
use armored_witness_applet.Device.Laws.{IsBlockStore}
use armored_witness_applet.Journal.{Journal}
use armored_witness_applet.Journal.Update.{current_data}
use armored_witness_applet.Journal.Chain.{Chain-le}
use armored_witness_applet.Journal.Reopen.{rewound}
use armored_witness_applet.Slot.{Slot}
use armored_witness_applet.Slot.Settled.{end, Apart, IsInStep, IsSettled, IsSettled-opens}
use armored_witness_applet.Slots.{Partition, num_slots}
use armored_witness_applet.Persistence.{
  SlotMap, Library, World, lookup, new_slot_persistence, open_at,
}
use armored_witness_applet.Persistence.Directory.{init, free_list, mark}
use armored_witness_applet.Persistence.Checkpoints.{slot_of}
use armored_witness_applet.Persistence.Restart.{
  init-ok, open_at-IsStored, with_journal, at_slot, lookup-has, populated,
}
use armored_witness_applet.Persistence.Served.{IsServed, started}
use armored_witness_applet.Persistence.Blank.{IsRoom}

-- Where the next record of a journal goes that was opened again.
place :
    (start tail top next : ℕ)
    → start ≤ tail
    → tail ≤ top
    → (next ≡ tail) ⊎ ((next ≡ start) × (tail ≡ top))
    → let next' = if leb top next then start else next in
      ((next' ≡ tail) ⊎ ((next' ≡ start) × (tail ≡ top))) × (start ≤ next') × (next' ≤ top)
place start tail top next from to h = elim (Bool-cases (leb top next)) [
  | inl t ↦ rw t (
      let past : top ≤ next = leb→le top next t in
      elim h [
        | inl e ↦ (inr (refl, omega arith), omega arith, omega arith)
        | inr (e, full) ↦ (inr (refl, full), omega arith, omega arith)
      ])
  | inr f ↦ rw f (h, (bounds h).0, (bounds h).1)
]
  where
    bounds : (next ≡ tail) ⊎ ((next ≡ start) × (tail ≡ top)) → (start ≤ next) × (next ≤ top)
    bounds (inl e) = omega arith
    bounds (inr (e, full)) = omega arith

module _ {S : Type 0} {dev : Device S} {capacity : ℕ} {Valid : S → Type 0} {block : S → ℕ → List ℕ}
    (laws : IsBlockStore dev capacity Valid block) (sha256 : List ℕ → List ℕ) (max_alloc : ℕ)
    (lib : Library) where
  -- A slot that is settled is in step with the storage once it is opened.
  opened-IsInStep :
      (s : S) (x : Slot) (k : Journal)
      → IsRoom dev.block_size capacity x
      → IsSettled dev capacity block sha256 max_alloc s x k
      → IsInStep dev capacity block sha256 max_alloc s
          (with_journal dev sha256 max_alloc x (rewound (end x) k))
          (rewound (end x) k)
  opened-IsInStep s x k room y =
      let w = y.written in
      let (next, low, high) =
        place k.start w.tail (end x) k.next_block (omega (arith, w.from, Chain-le w.chain)) w.inside
          w.next in
      record {
        attached = refl;
        start = y.start;
        extent = y.extent;
        placed = record {
          block_pos = laws.positive;
          ends = ap₂ (◌+◌) y.start y.extent;
          top_small = y.small;
          extent_small = subst (λ n. n * dev.block_size < word) (sym y.extent) room.extent_small;
          next_from = low;
          next_to = high;
          room =
              subst₂ (λ d n. 3 * (d + 48) ≤ n * dev.block_size)
                (ap (max_data dev.block_size) (sym y.extent) ∙ sym y.max) (sym y.extent)
                (max_data_lem dev.block_size x.extent room.extent_small room.headers);
        };
        inside = y.inside;
        fits = y.fits;
        max = y.max;
        old = inl (record {
          base = w.base;
          tail = w.tail;
          from = w.from;
          skipped = w.skipped;
          chain = w.chain;
          inside = w.inside;
          next = next;
        });
      }

  module _ (part : Partition) (s : S) (valid : Valid s) (origin : String) (i : ℕ) (x y : Slot)
      (j k : Journal) (m : SlotMap) (free : List ℕ) (at_y : get_elem? part.slots 0 ≡ some y)
      (shut_y : y.journal ≡ none) (map_stored : IsSettled dev capacity block sha256 max_alloc s y k)
      (decoded : lib.unmarshal_map k.current.bytes [] ≡ some m)
      (listed : free_list (num_slots part) (mark (replicate (num_slots part) false) m) ≡ ok free)
      (known : lookup (lib.log_id origin) m ≡ some i) (at_x : get_elem? part.slots i ≡ some x)
      (shut_x : x.journal ≡ none) (stored : IsSettled dev capacity block sha256 max_alloc s x j)
      (room : IsRoom dev.block_size capacity x) (apart : Apart x y) where
    abbrev y' : Slot
    y' = with_journal dev sha256 max_alloc y (rewound (end y) k)

    abbrev j' : Journal
    j' = rewound (end x) j

    abbrev x' : Slot
    x' = with_journal dev sha256 max_alloc x j'

    -- the state behind Init
    abbrev up : World S
    up = populated dev sha256 max_alloc lib (started part s) y' k.current.revision m free

    -- and the one in which the slot of the log is open
    abbrev v : World S
    v = at_slot dev sha256 max_alloc up i x'

    init-up : init dev sha256 max_alloc lib (started part s) ≡ (ok tt, up)
    unfolding new_slot_persistence current_data
    init-up =
        init-ok dev sha256 max_alloc lib (started part s) y k.current.bytes k.current.revision m
          free refl at_y shut_y
          (record {
            journal = rewound (end y) k;
            opens = IsSettled-opens laws sha256 max_alloc s y k valid map_stored;
            holds = refl;
          })
          decoded listed

    other : i ≢ 0
    other e =
        let (_, unreserved) = free_list_lem (num_slots part) m free 0 listed in
        let assigned : has i (values m) ≡ true = lookup-has (lib.log_id origin) m i known in
        cc (unreserved, assigned, e)

    still : get_elem? up.per.part.slots i ≡ some x
    unfolding new_slot_persistence
    still = get_elem?-set_ne part.slots y' (λ e. other (sym e)) ∙ at_x

    slot_of-up : slot_of dev sha256 max_alloc lib origin true up ≡ (ok i, v)
    unfolding slot_of current_data
    slot_of-up =
        let opens : open_at dev sha256 max_alloc i up ≡ (ok i, v) =
          open_at-IsStored dev sha256 max_alloc up i x j.current.bytes j.current.revision still
            shut_x
            (record {
              journal = j';
              opens = IsSettled-opens laws sha256 max_alloc s x j valid stored;
              holds = refl;
            }) in
        rw (log_slot-known dev sha256 lib (lib.log_id origin) true i up known, opens) refl

    v-IsServed : IsServed dev capacity block sha256 max_alloc lib v origin i x' y' j' k
    unfolding new_slot_persistence
    v-IsServed =
        let size : num_slots v.per.part ≡ num_slots part =
          num_slots-set (record { slots = set part.slots 0 y' }) i x' ∙ num_slots-set part 0 y' in
        record {
          known = known;
          there = get_elem?-set_of_some (set part.slots 0 y') i x x' still;
          step = opened-IsInStep s x j room stored;
          directory =
              get_elem?-set_ne (set part.slots 0 y') x' other
              ∙ get_elem?-set_of_some part.slots 0 y y' at_y;
          settled = record {
            start = map_stored.start;
            extent = map_stored.extent;
            inside = map_stored.inside;
            fits = map_stored.fits;
            small = map_stored.small;
            max = map_stored.max;
            written = map_stored.written;
            stops = map_stored.stops;
          };
          decoded = decoded;
          free = free;
          listed = ap (λ n. free_list n (mark (replicate n false) m)) size ∙ listed;
          apart = apart;
        }

    -- A restart: over a partition whose slots are not open, on a storage that holds the map in slot 0
    -- and a journal of the log in its slot, Init succeeds, and the first call for the log opens its
    -- slot and has the data and the token that the journal holds. The log is served from then on, as
    -- it was before the restart.
    pub init-IsServed :
        let (r, w) = init dev sha256 max_alloc lib (started part s) in
        (r ≡ ok tt)
        × ((slot_of dev sha256 max_alloc lib origin true w).0 ≡ ok i)
        × ((x' y' : Slot) × (j' : Journal) × IsServed dev capacity block sha256 max_alloc lib
              (slot_of dev sha256 max_alloc lib origin true w).1
              origin
              i
              x'
              y'
              j'
              k
            × (current_data j' ≡ current_data j))
    unfolding current_data
    init-IsServed =
        subst
          (λ (p : Result (Unit {0}) × World S).
            (p.0 ≡ ok tt)
            × ((slot_of dev sha256 max_alloc lib origin true p.1).0 ≡ ok i)
            × ((x' y' : Slot) × (j' : Journal) × IsServed dev capacity block sha256 max_alloc lib
                  (slot_of dev sha256 max_alloc lib origin true p.1).1 origin i x' y' j' k
                × (current_data j' ≡ current_data j)))
          (sym init-up)
          (
            refl,
            ap (λ q. q.0) slot_of-up,
            (
              x',
              y',
              j',
              subst
                  (λ (q : Result ℕ × World S).
                    IsServed dev capacity block sha256 max_alloc lib q.1 origin i x' y' j' k)
                  (sym slot_of-up) v-IsServed,
              refl,
            ),
          )
