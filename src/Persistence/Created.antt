-- ===== src/Persistence/Created.antt =====
-- trusted_applet/internal/storage/persistence.go: a log that is given a slot.
use Prim.Native.String.{String}
use mathlib.Core.Path.{subst}
use armored_witness_applet.Prelude.{
  ℕ, ◌+◌, ◌%◌, ◌≤◌, ◌<◌, ◌≡◌, ◌≢◌, refl, sym, ap, ◌∙◌, inl, inr, List, [], ◌∷◌, true, false, none,
  some, arith, get_elem?, set, replicate, word, get_elem?-set_of_some, get_elem?-set_ne,
}
use armored_witness_applet.Result.{Result, ok}
use armored_witness_applet.Device.{Device}
use armored_witness_applet.Device.Laws.{IsBlockStore}
use armored_witness_applet.Journal.{Journal}
use armored_witness_applet.Journal.Update.{current_data}
use armored_witness_applet.Journal.Chain.{Unreadable}
use armored_witness_applet.Journal.Blank.{fresh}
use armored_witness_applet.Journal.Updating.{Accepts}
use armored_witness_applet.Slot.{Slot, check_and_write}
use armored_witness_applet.Slot.Settled.{IsStored, end, Apart, IsInStep, IsSaved, Lands}
use armored_witness_applet.Slot.Reopened.{check_and_write-saves, check_and_write-Valid}
use armored_witness_applet.Slots.{num_slots}
use armored_witness_applet.Slots.LaidAgain.{num_slots-set}
use armored_witness_applet.Persistence.{lookup, insert, Library, World}
use armored_witness_applet.Persistence.Directory.{free_list, mark}
use armored_witness_applet.Persistence.Checkpoints.{slot_of}
use armored_witness_applet.Persistence.Allocation.{lookup-insert}
use armored_witness_applet.Persistence.Restart.{with_journal, at_slot}
use armored_witness_applet.Persistence.Taken.{free_list-head, free_list-insert}
use armored_witness_applet.Persistence.Blank.{fresh_reads, IsRoom, blank-IsStored, blank-IsInStep}
use armored_witness_applet.Persistence.Served.{IsServed}
use armored_witness_applet.Persistence.Assigned.{assigned, slot_of-stored}

Apart-other : (x y y' : Slot) → y'.start ≡ y.start → y'.extent ≡ y.extent → Apart x y → Apart x y'
Apart-other x y y' from len (inl h) = inl (omega arith)
Apart-other x y y' from len (inr h) = inr (omega arith)

-- The start of a log: it has no slot, the first of the free ones is `x`, and slot 0, `y`, is open and
-- in step with the storage; the free slots are those that the map leaves.
pub record IsNew {S : Type 0} (dev : Device S) (capacity : ℕ) (block : S → ℕ → List ℕ)
    (sha256 : List ℕ → List ℕ) (max_alloc : ℕ) (lib : Library) (w : World S) (origin : String)
    (f : ℕ) (x y : Slot) (k : Journal) : Type 0 where
  pub unknown : lookup (lib.log_id origin) w.per.id_to_slot ≡ none
  pub rest : List ℕ
  pub free : w.per.free_slots ≡ f ∷ rest
  pub listed :
      free_list
        (num_slots w.per.part)
        (mark (replicate (num_slots w.per.part) false) w.per.id_to_slot)
      ≡ ok (f ∷ rest)
  pub there : get_elem? w.per.part.slots f ≡ some x
  pub shut : x.journal ≡ none
  pub directory_slot : w.per.directory_slot ≡ some 0
  pub directory : get_elem? w.per.part.slots 0 ≡ some y
  pub step : IsInStep dev capacity block sha256 max_alloc w.store y k
  pub token : w.per.directory_write_token ≡ k.current.revision
  pub apart : Apart x y

module _ {S : Type 0} {dev : Device S} {capacity : ℕ} {Valid : S → Type 0} {block : S → ℕ → List ℕ}
    (laws : IsBlockStore dev capacity Valid block) (sha256 : List ℕ → List ℕ) (max_alloc : ℕ)
    (lib : Library) where
  module _ (origin : String) (w : World S) (valid : Valid w.store) (f : ℕ) (x y : Slot)
      (k : Journal) (new : IsNew dev capacity block sha256 max_alloc lib w origin f x y k)
      (raw : List ℕ)
      (encoded : lib.marshal_map (insert (lib.log_id origin) f w.per.id_to_slot) ≡ some raw)
      (decoded : lib.unmarshal_map raw [] ≡ some (insert (lib.log_id origin) f w.per.id_to_slot))
      (accepts : Accepts sha256 max_alloc k raw)
      (lands : Lands dev capacity block sha256 max_alloc w.store y k raw)
      (wrote : (check_and_write dev sha256 w.store y k.current.revision raw).0 ≡ ok tt)
      (room : IsRoom dev.block_size capacity x)
      (blank : (i : ℕ)
        → x.start ≤ i
        → i < end x
        → Unreadable dev sha256 max_alloc
            (check_and_write dev sha256 w.store y k.current.revision raw).2
            i) where
    abbrev y' : Slot
    y' = (check_and_write dev sha256 w.store y k.current.revision raw).1

    abbrev s' : S
    s' = (check_and_write dev sha256 w.store y k.current.revision raw).2

    saved :
        IsSaved dev capacity block sha256 max_alloc s' y' raw (k.current.revision + 1)
        × (y'.start ≡ y.start)
        × (y'.extent ≡ y.extent)
    saved =
        check_and_write-saves laws sha256 max_alloc w.store valid y k new.step raw accepts lands
          wrote

    abbrev j : Journal
    j = fresh dev.block_size x.start x.extent

    abbrev x' : Slot
    x' = with_journal dev sha256 max_alloc x j

    -- the state with both slots
    abbrev v : World S
    v =
        at_slot dev sha256 max_alloc
          (assigned dev sha256 max_alloc lib w (lib.log_id origin) f new.rest y' s'
            ((k.current.revision + 1) % word))
          f x'

    other : f ≢ 0
    other = (free_list-head (num_slots w.per.part) f new.rest w.per.id_to_slot new.listed).1

    after-Valid : Valid s'
    after-Valid = check_and_write-Valid laws sha256 max_alloc w.store valid y k new.step raw accepts

    slot_of-v : slot_of dev sha256 max_alloc lib origin true w ≡ (ok f, v)
    slot_of-v =
        subst
          (λ (t : ℕ).
            (check_and_write dev sha256 w.store y t raw).0 ≡ ok tt
            → (o : IsStored dev sha256 max_alloc (check_and_write dev sha256 w.store y t raw).2 x []
                0)
            → slot_of dev sha256 max_alloc lib origin true w ≡ (
              ok f,
              at_slot dev sha256 max_alloc
                  (assigned dev sha256 max_alloc lib w (lib.log_id origin) f new.rest
                    (check_and_write dev sha256 w.store y t raw).1
                    (check_and_write dev sha256 w.store y t raw).2 ((t + 1) % word))
                  f (with_journal dev sha256 max_alloc x o.journal),
            ))
          new.token
          (λ done o.
            slot_of-stored dev sha256 max_alloc lib origin w f new.rest raw x y [] 0 new.unknown
              new.free new.directory_slot new.directory encoded done other new.there new.shut o)
          wrote (blank-IsStored laws sha256 max_alloc s' x after-Valid room blank)

    v-IsServed :
        IsServed dev capacity block sha256 max_alloc lib v origin f x' y' j (saved.0).journal
    unfolding current_data
    v-IsServed =
        let (free, again) =
          free_list-insert (num_slots w.per.part) f new.rest (lib.log_id origin) w.per.id_to_slot
            new.unknown new.listed in
        let size : num_slots v.per.part ≡ num_slots w.per.part =
          num_slots-set (record { slots = set w.per.part.slots 0 y' }) f x'
          ∙ num_slots-set w.per.part 0 y' in
        record {
          known = lookup-insert (lib.log_id origin) f w.per.id_to_slot;
          there =
              get_elem?-set_of_some (set w.per.part.slots 0 y') f x x'
                (get_elem?-set_ne w.per.part.slots y' (λ e. other (sym e)) ∙ new.there);
          step = blank-IsInStep laws sha256 max_alloc s' x room blank;
          directory =
              get_elem?-set_ne (set w.per.part.slots 0 y') x' other
              ∙ get_elem?-set_of_some w.per.part.slots 0 y y' new.directory;
          settled = (saved.0).settled;
          decoded = ap (λ d. lib.unmarshal_map d.0 []) (saved.0).holds ∙ decoded;
          free = free;
          listed =
              ap
                (λ n.
                  free_list n
                    (mark (replicate n false) (insert (lib.log_id origin) f w.per.id_to_slot)))
                size
              ∙ again;
          apart = Apart-other x y y' saved.1 saved.2 new.apart;
        }

    -- The first call for a log: where the write of the directory succeeds, the log gets the first of
    -- the free slots, opened, and is served from then on: a restart finds the map with the log in slot
    -- 0. The blocks of the slot hold no record, so that it is read as empty, under token 0. The
    -- directory was open and in step with the storage, its write made no record by chance, and YAML
    -- decodes what it encoded.
    pub slot_of-IsServed :
        (slot_of dev sha256 max_alloc lib origin true w).0 ≡ ok f
        × ((x' y' : Slot) × (j k' : Journal) × IsServed dev capacity block sha256 max_alloc lib
              (slot_of dev sha256 max_alloc lib origin true w).1
              origin
              f
              x'
              y'
              j
              k'
            × (current_data j ≡ ([], 0)))
    slot_of-IsServed =
        subst
          (λ (p : Result ℕ × World S).
            (p.0 ≡ ok f)
            × ((x' y' : Slot) × (j k' : Journal) × IsServed dev capacity block sha256 max_alloc lib
                  p.1 origin f x' y' j k'
                × (current_data j ≡ ([], 0))))
          (sym slot_of-v)
          (
            refl,
            (x', y', j, (saved.0).journal, v-IsServed, fresh_reads dev.block_size x.start x.extent),
          )
