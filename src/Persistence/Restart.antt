-- ===== src/Persistence/Restart.antt =====
-- trusted_applet/internal/storage/persistence.go: Init and Latest after a restart.
use Prim.Native.String.{String}
use armored_witness_applet.Prelude.{
  ℕ, ◌≡◌, ◌≢◌, refl, sym, ap, ◌∙◌, List, [], ◌∷◌, true, false, none, some, arith, length, get_elem?,
  set, replicate, get_elem?-set_of_some, get_elem?-set_ne, length-set, ◌==◌,
}
use armored_witness_applet.Result.{Result, ok}
use armored_witness_applet.Device.{Device}
use armored_witness_applet.Journal.{Journal}
use armored_witness_applet.Journal.Update.{current_data}
use armored_witness_applet.Slot.{Slot, read, ensure_open}
use armored_witness_applet.Slot.Settled.{IsStored}
use armored_witness_applet.Slots.{Partition, num_slots, open_slot}
use armored_witness_applet.Persistence.{
  SlotMap, Library, World, lookup, open_at, read_at, new_slot_persistence,
}
use armored_witness_applet.Persistence.Directory.{init, populate_map, load_map, free_list, mark}
use armored_witness_applet.Persistence.Free.{has, values, free_list_lem}
use armored_witness_applet.Persistence.Checkpoints.{
  marshal_checkpoint, latest, slot_of, unmarshal-marshal_checkpoint,
}
use armored_witness_applet.Persistence.Latest.{nonempty}
use armored_witness_applet.Persistence.Allocation.{log_slot-known}
use mathlib.Core.Path.{subst}
use armored_witness_applet.Persistence.Opened.{IsOpen, read_at-IsOpen}
use armored_witness_applet.Persistence.Stored.{populate_map-read}

pub lookup-has : (k : String) (m : SlotMap) (v : ℕ) → lookup k m ≡ some v → has v (values m) ≡ true
unfolding lookup
lookup-has k [] v h = cc
lookup-has k ((j, w) ∷ m) v h = ground (arith, lookup-has k m v)

module _ {S : Type 0} (dev : Device S) (sha256 : List ℕ → List ℕ) (max_alloc : ℕ) where
  -- the slot, opened
  abbrev pub with_journal : Slot → Journal → Slot
  with_journal x j = record x { journal = some j }

  abbrev pub at_slot : World S → ℕ → Slot → World S
  at_slot w i x = record w {
    per = record w.per { part = record { slots = set w.per.part.slots i x } };
  }

  -- To open a slot that is not open yet, and read it.
  pub open_at-IsStored :
      (w : World S) (i : ℕ) (x : Slot) (d : List ℕ) (t : ℕ)
      → get_elem? w.per.part.slots i ≡ some x
      → x.journal ≡ none
      → (o : IsStored dev sha256 max_alloc w.store x d t)
      → open_at dev sha256 max_alloc i w ≡ (ok i, at_slot w i (with_journal x o.journal))
  unfolding open_at open_slot ensure_open
  open_at-IsStored w i x d t there closed o =
      rw (there, closed, o.opens, open_at, open_slot, ensure_open) refl

  at_slot-IsOpen :
      (w : World S) (i : ℕ) (x : Slot) (d : List ℕ) (t : ℕ)
      → get_elem? w.per.part.slots i ≡ some x
      → (o : IsStored dev sha256 max_alloc w.store x d t)
      → IsOpen (at_slot w i (with_journal x o.journal)) i d t
  unfolding read current_data
  at_slot-IsOpen w i x d t there o = record {
    slot = with_journal x o.journal;
    journal = o.journal;
    there = get_elem?-set_of_some w.per.part.slots i x (with_journal x o.journal) there;
    attached = refl;
    reads = ap ok o.holds;
  }

  -- What is open depends on the slots only.
  IsOpen-elsewhere :
      (w w' : World S) (i : ℕ) (d : List ℕ) (t : ℕ)
      → w'.per.part ≡ w.per.part
      → IsOpen w i d t
      → IsOpen w' i d t
  IsOpen-elsewhere w w' i d t same o = record {
    slot = o.slot;
    journal = o.journal;
    there = ap (λ (p : Partition). get_elem? p.slots i) same ∙ o.there;
    attached = o.attached;
    reads = o.reads;
  }

module _ {S : Type 0} (lib : Library) where
  -- `populateMap` behind its read, where the map is accepted.
  load_map-ok :
      (raw : List ℕ) (t : ℕ) (m : SlotMap) (free : List ℕ) (w : World S)
      → lib.unmarshal_map raw w.per.id_to_slot ≡ some m
      → free_list (num_slots w.per.part) (mark (replicate (num_slots w.per.part) false) m) ≡ ok free
      → load_map lib (raw, t) w ≡ (
        ok tt,
        record w {
          per = record w.per { id_to_slot = m; directory_write_token = t; free_slots = free };
        },
      )
  unfolding load_map
  load_map-ok raw t m free w decoded listed = rw (decoded, listed, load_map) refl

module _ {S : Type 0} (dev : Device S) (sha256 : List ℕ → List ℕ) (max_alloc : ℕ)
    (lib : Library) where
  -- The state behind an `Init` that has read the map `m`.
  abbrev pub populated : World S → Slot → ℕ → SlotMap → List ℕ → World S
  populated w x t m free = record (at_slot dev sha256 max_alloc w 0 x) {
    per = record (at_slot dev sha256 max_alloc w 0 x).per {
      directory_slot = some 0;
      id_to_slot = m;
      directory_write_token = t;
      free_slots = free;
    };
  }

  pub init-ok :
      (w : World S) (x : Slot) (raw : List ℕ) (t : ℕ) (m : SlotMap) (free : List ℕ)
      → w.per.id_to_slot ≡ []
      → get_elem? w.per.part.slots 0 ≡ some x
      → x.journal ≡ none
      → (o : IsStored dev sha256 max_alloc w.store x raw t) → lib.unmarshal_map raw [] ≡ some m
      → free_list (num_slots w.per.part) (mark (replicate (num_slots w.per.part) false) m) ≡ ok free
      → init dev sha256 max_alloc lib w
        ≡ (ok tt, populated w (with_journal dev sha256 max_alloc x o.journal) t m free)
  unfolding init num_slots
  init-ok w x raw t m free new there closed o decoded listed =
      let x' : Slot = with_journal dev sha256 max_alloc x o.journal in
      let w' : World S = record (at_slot dev sha256 max_alloc w 0 x') {
        per = record (at_slot dev sha256 max_alloc w 0 x').per { directory_slot = some 0 };
      } in
      let opens : open_at dev sha256 max_alloc 0 w ≡ (ok 0, at_slot dev sha256 max_alloc w 0 x') =
        open_at-IsStored dev sha256 max_alloc w 0 x raw t there closed o in
      let reads : read_at 0 w' ≡ (ok (raw, t), w') =
        read_at-IsOpen dev sha256 max_alloc w' 0 raw t (
          IsOpen-elsewhere dev sha256 max_alloc (at_slot dev sha256 max_alloc w 0 x') w' 0 raw t
            refl (at_slot-IsOpen dev sha256 max_alloc w 0 x raw t there o)) in
      let same : num_slots (w'.per.part) ≡ num_slots w.per.part =
        length-set w.per.part.slots 0 x' in
      let loads : populate_map lib w' ≡ (ok tt, populated w x' t m free) =
        populate_map-read dev sha256 max_alloc lib w' 0 (raw, t) refl reads
        ∙ load_map-ok lib raw t m free w' (ap (lib.unmarshal_map raw) new ∙ decoded)
            (ap (λ n. free_list n (mark (replicate n false) m)) same ∙ listed) in
      rw (opens, loads, init) refl

  -- `Latest` of a log whose slot is not open yet.
  latest-closed :
      (origin : String) (i : ℕ) (w : World S) (x : Slot) (cp : List ℕ) (t : ℕ)
      → lookup (lib.log_id origin) w.per.id_to_slot ≡ some i
      → get_elem? w.per.part.slots i ≡ some x
      → x.journal ≡ none
      → IsStored dev sha256 max_alloc w.store x (marshal_checkpoint cp) t
      → (latest dev sha256 max_alloc lib origin w).0 ≡ ok cp
  unfolding latest slot_of
  latest-closed origin i w x cp t known there closed o =
      let w' = at_slot dev sha256 max_alloc w i (with_journal dev sha256 max_alloc x o.journal) in
      let some : (length (marshal_checkpoint cp) == 0) ≡ false = nonempty cp in
      rw
        (
          log_slot-known dev sha256 lib (lib.log_id origin) false i w known,
          open_at-IsStored dev sha256 max_alloc w i x (marshal_checkpoint cp) t there closed o,
          read_at-IsOpen dev sha256 max_alloc w' i (marshal_checkpoint cp) t
              (at_slot-IsOpen dev sha256 max_alloc w i x (marshal_checkpoint cp) t there o),
          some,
          unmarshal-marshal_checkpoint lib cp,
        )
        refl

  -- A restart: over a partition whose slots are not open, Init reads the map that the storage holds
  -- in slot 0, and Latest returns the checkpoint that it holds in the slot of the log. The map is
  -- one that populateMap accepts.
  pub latest-init :
      (part : Partition) (s : S) (x y : Slot) (raw : List ℕ) (m : SlotMap) (free : List ℕ)
      (origin : String) (i : ℕ) (cp : List ℕ) (u t : ℕ)
      → get_elem? part.slots 0 ≡ some x
      → x.journal ≡ none
      → IsStored dev sha256 max_alloc s x raw u
      → lib.unmarshal_map raw [] ≡ some m
      → free_list (num_slots part) (mark (replicate (num_slots part) false) m) ≡ ok free
      → lookup (lib.log_id origin) m ≡ some i
      → get_elem? part.slots i ≡ some y
      → y.journal ≡ none
      → IsStored dev sha256 max_alloc s y (marshal_checkpoint cp) t
      → let w : World S = record { per = new_slot_persistence part; store = s } in
        let (r, w') = init dev sha256 max_alloc lib w in
        (r ≡ ok tt) × ((latest dev sha256 max_alloc lib origin w').0 ≡ ok cp)
  unfolding new_slot_persistence
  latest-init part s x y raw m free origin i cp u t at_x shut_x o decoded listed known at_y shut_y
        q =
      let w : World S = record { per = new_slot_persistence part; store = s } in
      let x' : Slot = with_journal dev sha256 max_alloc x o.journal in
      let (_, unreserved) = free_list_lem (num_slots part) m free 0 listed in
      let assigned : has i (values m) ≡ true = lookup-has (lib.log_id origin) m i known in
      let other : 0 ≢ i = λ e. cc (unreserved, assigned, e) in
      let started : init dev sha256 max_alloc lib w ≡ (ok tt, populated w x' u m free) =
        init-ok w x raw u m free refl at_x shut_x o decoded listed in
      let answer : (latest dev sha256 max_alloc lib origin (populated w x' u m free)).0 ≡ ok cp =
        latest-closed origin i (populated w x' u m free) y cp t known
          (get_elem?-set_ne part.slots x' other ∙ at_y) shut_y q in
      subst
        (λ (p : Result (Unit {0}) × World S).
          (p.0 ≡ ok tt) × ((latest dev sha256 max_alloc lib origin p.1).0 ≡ ok cp))
        (sym started) (refl, answer)
