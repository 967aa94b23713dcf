-- ===== src/Persistence/Served.antt =====
-- trusted_applet/internal/storage/persistence.go: Update of a log whose slot is open.
use armored_witness_applet.Persistence.Free.{has, values, free_list_lem}
use Prim.Native.String.{String}
use mathlib.Core.Path.{subst}
use armored_witness_applet.Prelude.{
  ℕ, ◌≡◌, refl, sym, ap, ◌∙◌, List, [], true, false, some, get_elem?, set, replicate, Option-cases,
  inl, inr, Bool-cases, ◌==◌, ◌≢◌,
}
use armored_witness_applet.Result.{Result, ok, err, panic, out_of_fuel, write_failed}
use armored_witness_applet.Persistence.Latest.{finish}
use armored_witness_applet.Device.{Device}
use armored_witness_applet.Device.Laws.{IsBlockStore}
use armored_witness_applet.Journal.{Journal}
use armored_witness_applet.Slot.{Slot, read, check_and_write}
use armored_witness_applet.Slot.Settled.{
  IsStored, Apart, IsInStep, IsSettled, IsSettled-IsStored, IsStored-blocks,
}
use armored_witness_applet.Slots.{Partition, num_slots}
use armored_witness_applet.Persistence.{
  continue, Library, World, lookup, new_slot_persistence, renamed, check_and_write_at,
}
use armored_witness_applet.Persistence.Directory.{init, free_list, mark}
use armored_witness_applet.Persistence.Checkpoints.{
  marshal_checkpoint, unmarshal_checkpoint, latest, update, slot_of,
}
use armored_witness_applet.Persistence.Allocation.{log_slot-known}
use armored_witness_applet.Persistence.Frames.{renamed-ok, renamed-state}
use armored_witness_applet.Persistence.Opened.{IsOpen, open_at-IsOpen, read_at-IsOpen}
use armored_witness_applet.Persistence.Restart.{latest-init, lookup-has}
use armored_witness_applet.Slots.LaidAgain.{
  shut, laid_again, get_elem?-map, map-set_same, num_slots-laid_again,
}

-- The persistence of a start over a partition, and its storage.
abbrev pub started : {S : Type 0} → Partition → S → World S
started part s = record { per = new_slot_persistence part; store = s }

-- A log that has a slot, in a persistence that is up: the slot `x` of the log is open and in step
-- with the storage, and slot 0, `y`, holds the map.
pub record IsServed {S : Type 0} (dev : Device S) (capacity : ℕ) (block : S → ℕ → List ℕ)
    (sha256 : List ℕ → List ℕ) (max_alloc : ℕ) (lib : Library) (w : World S) (origin : String)
    (i : ℕ) (x y : Slot) (j k : Journal) : Type 0 where
  pub known : lookup (lib.log_id origin) w.per.id_to_slot ≡ some i
  pub there : get_elem? w.per.part.slots i ≡ some x
  pub step : IsInStep dev capacity block sha256 max_alloc w.store x j
  pub directory : get_elem? w.per.part.slots 0 ≡ some y
  pub settled : IsSettled dev capacity block sha256 max_alloc w.store y k
  pub decoded : lib.unmarshal_map k.current.bytes [] ≡ some w.per.id_to_slot
  pub free : List ℕ
  pub listed :
      free_list
        (num_slots w.per.part)
        (mark (replicate (num_slots w.per.part) false) w.per.id_to_slot)
      ≡ ok free
  pub apart : Apart x y

module _ {S : Type 0} (dev : Device S) (sha256 : List ℕ → List ℕ) (max_alloc : ℕ)
    (lib : Library) where
  -- the state that a CheckAndWrite through a pointer to slot `i` leaves
  abbrev pub stored : World S → ℕ → Slot → ℕ → List ℕ → World S
  stored w i x t p = record {
    per = record w.per {
      part = record { slots = set w.per.part.slots i (check_and_write dev sha256 w.store x t p).1 };
    };
    store = (check_and_write dev sha256 w.store x t p).2;
  }

  -- `Update` of a log whose slot is open is the CheckAndWrite of the new checkpoint.
  update-known :
      (origin : String) (f : List ℕ → Result (List ℕ)) (w : World S) (i : ℕ) (x : Slot)
      (j : Journal) (cp new : List ℕ)
      → lookup (lib.log_id origin) w.per.id_to_slot ≡ some i
      → get_elem? w.per.part.slots i ≡ some x
      → x.journal ≡ some j
      → unmarshal_checkpoint lib j.current.bytes ≡ ok cp
      → f cp ≡ ok new
      → update dev sha256 max_alloc lib origin f w
        ≡ renamed write_failed (
          (check_and_write dev sha256 w.store x j.current.revision (marshal_checkpoint new)).0,
          stored w i x j.current.revision (marshal_checkpoint new),
        )
  unfolding update slot_of check_and_write_at read
  update-known origin f w i x j cp new known there attached decoded made =
      let o : IsOpen w i j.current.bytes j.current.revision = record {
        slot = x;
        journal = j;
        there = there;
        attached = attached;
        reads = rw (attached, read) refl;
      } in
      rw
        (
          log_slot-known dev sha256 lib (lib.log_id origin) true i w known,
          open_at-IsOpen dev sha256 max_alloc w i j.current.bytes j.current.revision o,
          read_at-IsOpen dev sha256 max_alloc w i j.current.bytes j.current.revision o,
          decoded,
          made,
          there,
          check_and_write_at,
        )
        refl

module _ {S : Type 0} {dev : Device S} {capacity : ℕ} {Valid : S → Type 0} {block : S → ℕ → List ℕ}
    (laws : IsBlockStore dev capacity Valid block) (sha256 : List ℕ → List ℕ) (max_alloc : ℕ)
    (lib : Library) where
  -- A start over the partition succeeds, and Latest then returns the checkpoint of the log.
  abbrev pub Recalls : String → List ℕ → Partition → S → Type 0
  Recalls origin cp part s =
      let (r, v) = init dev sha256 max_alloc lib (started part s) in
      (r ≡ ok tt) × ((latest dev sha256 max_alloc lib origin v).0 ≡ ok cp)

  -- A restart on a storage `s'` that holds the map in slot 0, and a checkpoint in the slot `z` of a log.
  pub recalls :
      (origin : String) (w : World S) (i : ℕ) (x y : Slot) (j k : Journal)
      (up : IsServed dev capacity block sha256 max_alloc lib w origin i x y j k) (s' : S)
      (x' : Slot) (other : String) (n : ℕ) (z : Slot) (cp : List ℕ) (t : ℕ)
      → lookup (lib.log_id other) w.per.id_to_slot ≡ some n
      → get_elem? w.per.part.slots n ≡ some z
      → Valid s'
      → IsSettled dev capacity block sha256 max_alloc s' y k
      → shut x' ≡ shut x
      → IsStored dev sha256 max_alloc s' z (marshal_checkpoint cp) t
      → Recalls other cp (laid_again (record { slots = set w.per.part.slots i x' })) s'
  recalls origin w i x y j k up s' x' other n z cp t known there valid kept same o =
      let again : laid_again (record { slots = set w.per.part.slots i x' })
          ≡ laid_again w.per.part =
        ap (λ l. record { slots = l }) (map-set_same w.per.part.slots i x x' up.there same) in
      let found : IsStored dev sha256 max_alloc s' (shut z) (marshal_checkpoint cp) t =
        IsStored-blocks laws sha256 max_alloc s' z (shut z) (marshal_checkpoint cp) t refl refl o in
      let mapped : IsStored dev sha256 max_alloc s' (shut y) k.current.bytes k.current.revision =
        IsStored-blocks laws sha256 max_alloc s' y (shut y) k.current.bytes k.current.revision refl
          refl (IsSettled-IsStored laws sha256 max_alloc s' y k valid kept) in
      subst (λ (part : Partition). Recalls other cp part s') (sym again)
        (latest-init dev sha256 max_alloc lib (laid_again w.per.part) s' (shut y) (shut z)
          k.current.bytes w.per.id_to_slot up.free other n cp k.current.revision t
          (get_elem?-map w.per.part.slots 0 y up.directory) refl mapped up.decoded
          (ap (λ m. free_list m (mark (replicate m false) w.per.id_to_slot))
              (num_slots-laid_again w.per.part)
            ∙ up.listed)
          known (get_elem?-map w.per.part.slots n z there) refl found)

  -- The state that `Update` leaves, whatever it returns.
  pub update-state :
      (origin : String) (f : List ℕ → Result (List ℕ)) (w : World S) (i : ℕ) (x y : Slot)
      (j k : Journal) (cp new : List ℕ)
      → IsServed dev capacity block sha256 max_alloc lib w origin i x y j k
      → unmarshal_checkpoint lib j.current.bytes ≡ ok cp
      → f cp ≡ ok new
      → (update dev sha256 max_alloc lib origin f w).1
        ≡ stored dev sha256 max_alloc lib w i x j.current.revision (marshal_checkpoint new)
  update-state origin f w i x y j k cp new up decoded made =
      let v = stored dev sha256 max_alloc lib w i x j.current.revision (marshal_checkpoint new) in
      let q = check_and_write dev sha256 w.store x j.current.revision (marshal_checkpoint new) in
      ap (λ r. r.1)
        (update-known dev sha256 max_alloc lib origin f w i x j cp new up.known up.there
          up.step.attached decoded made)
      ∙ renamed-state write_failed (q.0, v)

  -- `Update` leaves all as it was where the function makes no checkpoint.
  pub update-refused :
      (origin : String) (f : List ℕ → Result (List ℕ)) (w : World S) (i : ℕ) (x y : Slot)
      (j k : Journal) (cp : List ℕ)
      → IsServed dev capacity block sha256 max_alloc lib w origin i x y j k
      → unmarshal_checkpoint lib j.current.bytes ≡ ok cp
      → ((new : List ℕ) → ¬ (f cp ≡ ok new))
      → (update dev sha256 max_alloc lib origin f w).1 ≡ w
  unfolding update slot_of read
  update-refused origin f w i x y j k cp up decoded refuses =
      ap (λ r. r.1) asked ∙ stays (f cp) refl
    where
      o : IsOpen w i j.current.bytes j.current.revision
      o = record {
        slot = x;
        journal = j;
        there = up.there;
        attached = up.step.attached;
        reads = rw (up.step.attached, read) refl;
      }

      asked :
          update dev sha256 max_alloc lib origin f w
          ≡ continue
              (f cp)
              (finish dev sha256 max_alloc lib i (j.current.bytes, j.current.revision))
              w
      asked =
          rw
            (
              log_slot-known dev sha256 lib (lib.log_id origin) true i w up.known,
              open_at-IsOpen dev sha256 max_alloc w i j.current.bytes j.current.revision o,
              read_at-IsOpen dev sha256 max_alloc w i j.current.bytes j.current.revision o,
              decoded,
            )
            refl

      stays :
          (r : Result (List ℕ))
          → f cp ≡ r
          → (continue r
              (finish dev sha256 max_alloc lib i (j.current.bytes, j.current.revision))
              w).1
            ≡ w
      stays (ok new) e = absurd (refuses new e)
      stays (err z) e = refl
      stays panic e = refl
      stays out_of_fuel e = refl

  -- `Update` succeeds only where its CheckAndWrite does.
  pub update-wrote :
      (origin : String) (f : List ℕ → Result (List ℕ)) (w : World S) (i : ℕ) (x y : Slot)
      (j k : Journal) (cp new : List ℕ)
      → IsServed dev capacity block sha256 max_alloc lib w origin i x y j k
      → unmarshal_checkpoint lib j.current.bytes ≡ ok cp
      → f cp ≡ ok new
      → (update dev sha256 max_alloc lib origin f w).0 ≡ ok tt
      → (check_and_write dev sha256 w.store x j.current.revision (marshal_checkpoint new)).0 ≡ ok tt
  update-wrote origin f w i x y j k cp new up decoded made done =
      let v = stored dev sha256 max_alloc lib w i x j.current.revision (marshal_checkpoint new) in
      let q = check_and_write dev sha256 w.store x j.current.revision (marshal_checkpoint new) in
      let all =
        update-known dev sha256 max_alloc lib origin f w i x j cp new up.known up.there
          up.step.attached decoded made in
      ap (λ r. r.0) (renamed-ok write_failed (q.0, v) (sym (ap (λ r. r.0) all) ∙ done))

  pub shut-check_and_write :
      (s : S) (x : Slot) (t : ℕ) (p : List ℕ) → shut (check_and_write dev sha256 s x t p).1 ≡ shut x
  unfolding check_and_write
  shut-check_and_write s x t p = elim (Option-cases x.journal) [
    | inl closed ↦ rw (closed, check_and_write) refl
    | inr (j, e) ↦ elim (Bool-cases (j.current.revision == t)) [
      | inl same ↦ rw (e, same, check_and_write) refl
      | inr differs ↦ rw (e, differs, check_and_write) refl
    ]
  ]

  -- The log is not in the slot of the directory.
  pub IsServed-other :
      (w : World S) (origin : String) (i : ℕ) (x y : Slot) (j k : Journal)
      → IsServed dev capacity block sha256 max_alloc lib w origin i x y j k
      → i ≢ 0
  IsServed-other w origin i x y j k up =
      let (_, unreserved) =
        free_list_lem (num_slots w.per.part) w.per.id_to_slot up.free 0 up.listed in
      let assigned : has i (values w.per.id_to_slot) ≡ true =
        lookup-has (lib.log_id origin) w.per.id_to_slot i up.known in
      λ e. cc (unreserved, assigned, e)
