-- ===== src/Persistence/Durable.antt =====
-- trusted_applet/internal/storage/persistence.go: a restart after an Update.
use armored_witness_applet.Journal.Update.{next_entry, current_data}
use armored_witness_applet.Journal.Durable.{NothingForged}
use armored_witness_applet.Journal.Torn.{IsTorn}
use Prim.Native.String.{String}
use mathlib.Core.Path.{subst}
use armored_witness_applet.Prelude.{
  ℕ, ◌-◌, ◌*◌, ◌≤◌, ◌+◌, ◌≡◌, refl, sym, ap, ◌∙◌, List, false, replicate, get_elem?-set_ne,
  get_elem?-set_of_some, some, get_elem?,
}
use armored_witness_applet.Result.{Result, ok, err, panic, out_of_fuel}
use armored_witness_applet.Device.{Device}
use armored_witness_applet.Device.Laws.{IsBlockStore}
use armored_witness_applet.Journal.{Journal, size}
use armored_witness_applet.Journal.Updating.{Accepts}
use armored_witness_applet.Slot.{Slot, check_and_write}
use armored_witness_applet.Slot.Settled.{
  IsStored, end, IsSettled, Spares, Lands, IsSaved-IsStored, IsStored-blocks, Apart,
  IsSettled-IsStored,
}
use armored_witness_applet.Slot.Reopened.{
  check_and_write-saves, check_and_write-apart, check_and_write-Valid, check_and_write-torn,
}
use armored_witness_applet.Persistence.{Library, World, lookup}
use armored_witness_applet.Persistence.Directory.{init, free_list, mark}
use armored_witness_applet.Persistence.Checkpoints.{
  marshal_checkpoint, unmarshal_checkpoint, latest, update,
}
use armored_witness_applet.Slots.LaidAgain.{laid_again, num_slots-set, Apart-same, map-set_same}
use armored_witness_applet.Persistence.Served.{
  IsServed, Recalls, started, stored, recalls, update-refused, update-state, update-wrote,
  shut-check_and_write, IsServed-other,
}

module _ {S : Type 0} {dev : Device S} {capacity : ℕ} {Valid : S → Type 0} {block : S → ℕ → List ℕ}
    (laws : IsBlockStore dev capacity Valid block) (sha256 : List ℕ → List ℕ) (max_alloc : ℕ)
    (lib : Library) where
  module _ (origin : String) (f : List ℕ → Result (List ℕ)) (w : World S) (valid : Valid w.store)
      (i : ℕ) (x y : Slot) (j k : Journal)
      (up : IsServed dev capacity block sha256 max_alloc lib w origin i x y j k) (cp new : List ℕ)
      (decoded : unmarshal_checkpoint lib j.current.bytes ≡ ok cp) (made : f cp ≡ ok new)
      (accepts : Accepts sha256 max_alloc j (marshal_checkpoint new))
      (spares : Spares dev capacity block sha256 max_alloc w.store
        (update dev sha256 max_alloc lib origin f w).1.store
        y
        k
        up.settled) where
    left :
        (update dev sha256 max_alloc lib origin f w).1
        ≡ stored dev sha256 max_alloc lib w i x j.current.revision (marshal_checkpoint new)
    left = update-state laws sha256 max_alloc lib origin f w i x y j k cp new up decoded made

    -- the storage behind the write
    abbrev behind : S
    behind = (check_and_write dev sha256 w.store x j.current.revision (marshal_checkpoint new)).2

    behind-Valid : Valid behind
    behind-Valid =
        check_and_write-Valid laws sha256 max_alloc w.store valid x j up.step
          (marshal_checkpoint new) accepts

    kept : IsSettled dev capacity block sha256 max_alloc behind y k
    kept =
        check_and_write-apart laws sha256 max_alloc w.store valid x j up.step
          (marshal_checkpoint new) accepts y k up.settled up.apart
          (subst
            (λ (u : World S).
              Spares dev capacity block sha256 max_alloc w.store u.store y k up.settled)
            left spares)

    -- a restart, where the slot of a log holds its checkpoint
    recalled :
        (other : String) (n : ℕ) (z : Slot) (c : List ℕ) (t : ℕ)
        → lookup (lib.log_id other) w.per.id_to_slot ≡ some n
        → get_elem? w.per.part.slots n ≡ some z
        → IsStored dev sha256 max_alloc behind z (marshal_checkpoint c) t
        → let w' = (update dev sha256 max_alloc lib origin f w).1 in
          Recalls laws sha256 max_alloc lib other c (laid_again w'.per.part) w'.store
    recalled other n z c t known there o =
        subst
          (λ (u : World S).
            Recalls laws sha256 max_alloc lib other c (laid_again u.per.part) u.store)
          (sym left)
          (recalls laws sha256 max_alloc lib origin w i x y j k up behind
            (check_and_write dev sha256 w.store x j.current.revision (marshal_checkpoint new)).1
            other n z c t known there behind-Valid kept
            (shut-check_and_write laws sha256 max_alloc lib w.store x j.current.revision
              (marshal_checkpoint new))
            o)

    -- The other log, where the function made a checkpoint.
    update-others_made :
        (other : String) (n : ℕ) (z : Slot) (l : Journal) (c : List ℕ)
        → lookup (lib.log_id other) w.per.id_to_slot ≡ some n
        → get_elem? w.per.part.slots n ≡ some z
        → Apart x z
        → (held : IsSettled dev capacity block sha256 max_alloc w.store z l)
        → l.current.bytes ≡ marshal_checkpoint c
        → Spares dev capacity block sha256 max_alloc w.store
            (update dev sha256 max_alloc lib origin f w).1.store
            z
            l
            held
        → let w' = (update dev sha256 max_alloc lib origin f w).1 in
          let (r, v) = init dev sha256 max_alloc lib (started (laid_again w'.per.part) w'.store) in
          (r ≡ ok tt) × ((latest dev sha256 max_alloc lib other v).0 ≡ ok c)
    update-others_made other n z l c known there apart held same clear =
        let after : IsSettled dev capacity block sha256 max_alloc behind z l =
          check_and_write-apart laws sha256 max_alloc w.store valid x j up.step
            (marshal_checkpoint new) accepts z l held apart
            (subst
              (λ (u : World S). Spares dev capacity block sha256 max_alloc w.store u.store z l held)
              left clear) in
        recalled other n z c l.current.revision known there (
          subst (λ d. IsStored dev sha256 max_alloc behind z d l.current.revision) same
            (IsSettled-IsStored laws sha256 max_alloc behind z l behind-Valid after))

    -- After an Update that succeeded and a restart, Init reads the map, and Latest returns the
    -- checkpoint that the caller's function made from the one before. The log had its slot, open and
    -- in step with the storage, and slot 0 held the map; the write made no record by chance, in its
    -- own slot or in slot 0.
    pub update-latest-init :
        Lands dev capacity block sha256 max_alloc w.store x j (marshal_checkpoint new)
        → (update dev sha256 max_alloc lib origin f w).0 ≡ ok tt
        → let w' = (update dev sha256 max_alloc lib origin f w).1 in
          let (r, v) = init dev sha256 max_alloc lib (started (laid_again w'.per.part) w'.store) in
          (r ≡ ok tt) × ((latest dev sha256 max_alloc lib origin v).0 ≡ ok new)
    update-latest-init lands done =
        let (saved, from, len) =
          check_and_write-saves laws sha256 max_alloc w.store valid x j up.step
            (marshal_checkpoint new) accepts lands
            (update-wrote laws sha256 max_alloc lib origin f w i x y j k cp new up decoded made
              done) in
        let x' =
          (check_and_write dev sha256 w.store x j.current.revision (marshal_checkpoint new)).1 in
        recalled origin i x new (j.current.revision + 1) up.known up.there (
          IsStored-blocks laws sha256 max_alloc behind x' x (marshal_checkpoint new)
            (j.current.revision + 1) from len
            (IsSaved-IsStored laws sha256 max_alloc behind x' (marshal_checkpoint new)
              (j.current.revision + 1) behind-Valid saved))

    -- The state that a successful Update leaves serves the log again: its slot is open and in step
    -- with the storage, and holds the new checkpoint, and slot 0 holds the map as before.
    pub update-IsServed :
        Lands dev capacity block sha256 max_alloc w.store x j (marshal_checkpoint new)
        → (update dev sha256 max_alloc lib origin f w).0 ≡ ok tt
        → (x' : Slot) × (j' : Journal) × IsServed dev capacity block sha256 max_alloc lib
            (update dev sha256 max_alloc lib origin f w).1
            origin
            i
            x'
            y
            j'
            k
          × (current_data j' ≡ (marshal_checkpoint new, j.current.revision + 1))
    update-IsServed lands done =
        let (saved, from, len) =
          check_and_write-saves laws sha256 max_alloc w.store valid x j up.step
            (marshal_checkpoint new) accepts lands
            (update-wrote laws sha256 max_alloc lib origin f w i x y j k cp new up decoded made
              done) in
        let x' : Slot =
          (check_and_write dev sha256 w.store x j.current.revision (marshal_checkpoint new)).1 in
        let slots = w.per.part.slots in
        let v : World S =
          stored dev sha256 max_alloc lib w i x j.current.revision (marshal_checkpoint new) in
        let again : IsServed dev capacity block sha256 max_alloc lib v origin i x' y saved.journal
            k =
          record {
            known = up.known;
            there = get_elem?-set_of_some slots i x x' up.there;
            step = saved.step;
            directory =
                get_elem?-set_ne slots x'
                  (IsServed-other laws sha256 max_alloc lib w origin i x y j k up)
                ∙ up.directory;
            settled = kept;
            decoded = up.decoded;
            free = up.free;
            listed =
                ap (λ n. free_list n (mark (replicate n false) w.per.id_to_slot))
                  (num_slots-set w.per.part i x')
                ∙ up.listed;
            apart = Apart-same x x' y from len up.apart;
          } in
        (
          x',
          saved.journal,
          subst
              (λ (u : World S).
                IsServed dev capacity block sha256 max_alloc lib u origin i x' y saved.journal k)
              (sym left) again,
          saved.holds,
        )

    -- After an Update whose write was torn behind the last record, and a restart, Init reads the map,
    -- and Latest returns the checkpoint from before. The log had its slot, open and in step with the
    -- storage, and slot 0 held the map. The record fits behind the last one; its header has reached
    -- the storage, and behind that there is other data than its own, with which it does not collide
    -- under SHA-256. The write made no record by chance before those of the slot, nor in slot 0.
    pub update_torn-latest-init :
        (old : List ℕ)
        → j.current.bytes ≡ marshal_checkpoint old
        → (held : IsSettled dev capacity block sha256 max_alloc w.store x j)
        → size (next_entry sha256 j (marshal_checkpoint new))
          ≤ (end x - held.written.tail) * dev.block_size
        → NothingForged dev sha256 max_alloc j.start held.written.base w.store
            (update dev sha256 max_alloc lib origin f w).1.store
        → IsTorn block sha256
            (update dev sha256 max_alloc lib origin f w).1.store
            held.written.tail
            (end x)
            (next_entry sha256 j (marshal_checkpoint new))
        → let w' = (update dev sha256 max_alloc lib origin f w).1 in
          let (r, v) = init dev sha256 max_alloc lib (started (laid_again w'.per.part) w'.store) in
          (r ≡ ok tt) × ((latest dev sha256 max_alloc lib origin v).0 ≡ ok old)
    update_torn-latest-init old same held fit forged torn =
        recalled origin i x old j.current.revision up.known up.there (
          subst (λ d. IsStored dev sha256 max_alloc behind x d j.current.revision) same
            (check_and_write-torn laws sha256 max_alloc w.store valid x j up.step
              (marshal_checkpoint new) accepts held fit
              (subst
                (λ (u : World S).
                  NothingForged dev sha256 max_alloc j.start held.written.base w.store u.store)
                left forged)
              (subst
                (λ (u : World S).
                  IsTorn block sha256 u.store held.written.tail (end x)
                    (next_entry sha256 j (marshal_checkpoint new)))
                left torn)))

  -- After an Update of a log that is served and a restart, Latest returns the checkpoint that another
  -- log had before, whether the caller's function makes a checkpoint or not, and whether the write
  -- succeeds or fails. What the function makes is accepted by the journal; the slot of the other log
  -- held its checkpoint; the write made no record by chance in it or in slot 0. An Update that gives a
  -- new log its slot writes the directory first, and is not covered.
  pub update-others :
      (origin : String) (f : List ℕ → Result (List ℕ)) (w : World S) (valid : Valid w.store) (i : ℕ)
      (x y : Slot) (j k : Journal)
      (up : IsServed dev capacity block sha256 max_alloc lib w origin i x y j k) (cp : List ℕ)
      → unmarshal_checkpoint lib j.current.bytes ≡ ok cp
      → ((new : List ℕ) → f cp ≡ ok new → Accepts sha256 max_alloc j (marshal_checkpoint new))
      → Spares dev capacity block sha256 max_alloc w.store
          (update dev sha256 max_alloc lib origin f w).1.store
          y
          k
          up.settled
      → (other : String) (n : ℕ) (z : Slot) (l : Journal) (c : List ℕ)
      → lookup (lib.log_id other) w.per.id_to_slot ≡ some n
      → get_elem? w.per.part.slots n ≡ some z
      → Apart x z
      → (held : IsSettled dev capacity block sha256 max_alloc w.store z l)
      → l.current.bytes ≡ marshal_checkpoint c
      → Spares dev capacity block sha256 max_alloc w.store
          (update dev sha256 max_alloc lib origin f w).1.store
          z
          l
          held
      → let w' = (update dev sha256 max_alloc lib origin f w).1 in
        let (r, v) = init dev sha256 max_alloc lib (started (laid_again w'.per.part) w'.store) in
        (r ≡ ok tt) × ((latest dev sha256 max_alloc lib other v).0 ≡ ok c)
  update-others origin f w valid i x y j k up cp decoded accepts spares other n z l c known there
        apart held same clear =
      go (f cp) refl
    where
      Recalled : Type 0
      Recalled =
          let w' = (update dev sha256 max_alloc lib origin f w).1 in
          Recalls laws sha256 max_alloc lib other c (laid_again w'.per.part) w'.store

      unchanged : ((new : List ℕ) → ¬ (f cp ≡ ok new)) → Recalled
      unchanged refuses =
          subst
            (λ (u : World S).
              Recalls laws sha256 max_alloc lib other c (laid_again u.per.part) u.store)
            (sym
              (update-refused laws sha256 max_alloc lib origin f w i x y j k cp up decoded refuses))
            (subst (λ ss. Recalls laws sha256 max_alloc lib other c (record { slots = ss }) w.store)
              (map-set_same w.per.part.slots i x x up.there refl)
              (recalls laws sha256 max_alloc lib origin w i x y j k up w.store x other n z c
                l.current.revision known there valid up.settled refl
                (subst (λ d. IsStored dev sha256 max_alloc w.store z d l.current.revision) same
                  (IsSettled-IsStored laws sha256 max_alloc w.store z l valid held))))

      go : (r : Result (List ℕ)) → f cp ≡ r → Recalled
      go (ok new) e =
          update-others_made origin f w valid i x y j k up cp new decoded e (accepts new e) spares
            other n z l c known there apart held same clear
      go (err q) e = unchanged (λ new h. cc (e, h))
      go panic e = unchanged (λ new h. cc (e, h))
      go out_of_fuel e = unchanged (λ new h. cc (e, h))
