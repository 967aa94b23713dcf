-- ===== src/Persistence/Assigned.antt =====
-- trusted_applet/internal/storage/persistence.go: logSlot where the write of the directory succeeds.
use Prim.Native.String.{String}
use armored_witness_applet.Prelude.{
  ℕ, ◌+◌, ◌%◌, ◌≡◌, ◌≢◌, refl, sym, ap, ◌∙◌, List, ◌∷◌, true, none, some, get_elem?, set, word,
  get_elem?-set_ne,
}
use armored_witness_applet.Result.{Result, ok, assign_slot, store_mapping}
use armored_witness_applet.Device.{Device}
use armored_witness_applet.Slot.{Slot, check_and_write}
use armored_witness_applet.Slot.Settled.{IsStored}
use armored_witness_applet.Persistence.{
  lookup, insert, Library, World, check_and_write_at, open_at, renamed, continue, lift,
}
use armored_witness_applet.Persistence.Directory.{store_directory, assign, log_slot}
use armored_witness_applet.Persistence.Checkpoints.{slot_of}
use armored_witness_applet.Persistence.Allocation.{log_slot-assigns}
use armored_witness_applet.Persistence.Restart.{open_at-IsStored, with_journal, at_slot}

module _ {S : Type 0} (dev : Device S) (sha256 : List ℕ → List ℕ) (max_alloc : ℕ)
    (lib : Library) where
  -- the state that `addLog` leaves where the directory, in slot 0, is written
  abbrev pub assigned : World S → String → ℕ → List ℕ → Slot → S → ℕ → World S
  assigned w id f rest y s t = record {
    per = record {
      part = record { slots = set w.per.part.slots 0 y };
      directory_slot = w.per.directory_slot;
      directory_write_token = t;
      id_to_slot = insert id f w.per.id_to_slot;
      free_slots = rest;
    };
    store = s;
  }

  -- the state in which `addLog` stores the directory
  abbrev entered : World S → String → ℕ → List ℕ → World S
  entered w id f rest = record w {
    per = record w.per { free_slots = rest; id_to_slot = insert id f w.per.id_to_slot };
  }

  -- `storeDirectory`, where the write succeeds.
  store_directory-stored :
      (w : World S) (raw : List ℕ) (y : Slot)
      → w.per.directory_slot ≡ some 0
      → get_elem? w.per.part.slots 0 ≡ some y
      → lib.marshal_map w.per.id_to_slot ≡ some raw
      → (check_and_write dev sha256 w.store y w.per.directory_write_token raw).0 ≡ ok tt
      → let q = check_and_write dev sha256 w.store y w.per.directory_write_token raw in
        store_directory dev sha256 lib w ≡ (
          ok tt,
          record {
            per = record w.per {
              part = record { slots = set w.per.part.slots 0 q.1 };
              directory_write_token = (w.per.directory_write_token + 1) % word;
            };
            store = q.2;
          },
        )
  unfolding store_directory check_and_write_at
  store_directory-stored w raw y at there encoded wrote =
      let t = w.per.directory_write_token in
      let q = check_and_write dev sha256 w.store y t raw in
      let bump : Unit {0} → World S → Result (Unit {0}) × World S = λ _ v. (
        ok tt,
        record v {
          per = record v.per { directory_write_token = (v.per.directory_write_token + 1) % word };
        },
      ) in
      let p = renamed store_mapping (check_and_write_at dev sha256 0 t raw w) in
      let step : store_directory dev sha256 lib w ≡ continue p.0 bump p.1 =
        rw (encoded, at, store_directory) refl in
      let written : check_and_write_at dev sha256 0 t raw w ≡ (
        ok tt,
        record {
          per = record w.per { part = record { slots = set w.per.part.slots 0 q.1 } };
          store = q.2;
        },
      ) =
        rw (there, check_and_write_at)
          (ap
            (λ (r : Result (Unit {0})). (
              r,
              record {
                per = record w.per { part = record { slots = set w.per.part.slots 0 q.1 } };
                store = q.2;
              },
            ))
            wrote) in
      step ∙ ap (λ r. continue (renamed store_mapping r).0 bump (renamed store_mapping r).1) written

  -- `logSlot` of a log that has no slot, where the write of the directory succeeds.
  log_slot-stored :
      (id : String) (w : World S) (f : ℕ) (rest raw : List ℕ) (y : Slot)
      → lookup id w.per.id_to_slot ≡ none
      → w.per.free_slots ≡ f ∷ rest
      → w.per.directory_slot ≡ some 0
      → get_elem? w.per.part.slots 0 ≡ some y
      → lib.marshal_map (insert id f w.per.id_to_slot) ≡ some raw
      → let t = w.per.directory_write_token in
        (check_and_write dev sha256 w.store y t raw).0 ≡ ok tt
        → log_slot dev sha256 lib id true w ≡ (
          ok f,
          assigned w id f rest
              (check_and_write dev sha256 w.store y w.per.directory_write_token raw).1
              (check_and_write dev sha256 w.store y w.per.directory_write_token raw).2
              ((w.per.directory_write_token + 1) % word),
        )
  unfolding assign
  log_slot-stored id w f rest raw y new free at there encoded wrote =
      let stores = store_directory-stored (entered w id f rest) raw y at there encoded wrote in
      log_slot-assigns dev sha256 lib id f rest w new free
      ∙ ap (renamed assign_slot) (
          ap
            (λ p.
              continue (renamed store_mapping p).0 (λ _. lift (ok f)) (renamed store_mapping p).1)
            stores)

  -- The slot of a log that has none, opened: it is the first of the free ones.
  pub slot_of-stored :
      (origin : String) (w : World S) (f : ℕ) (rest raw : List ℕ) (x y : Slot) (d : List ℕ) (t : ℕ)
      → lookup (lib.log_id origin) w.per.id_to_slot ≡ none
      → w.per.free_slots ≡ f ∷ rest
      → w.per.directory_slot ≡ some 0
      → get_elem? w.per.part.slots 0 ≡ some y
      → lib.marshal_map (insert (lib.log_id origin) f w.per.id_to_slot) ≡ some raw
      → (check_and_write dev sha256 w.store y w.per.directory_write_token raw).0 ≡ ok tt
      → f ≢ 0
      → get_elem? w.per.part.slots f ≡ some x
      → x.journal ≡ none
      → let q = check_and_write dev sha256 w.store y w.per.directory_write_token raw in
        (o : IsStored dev sha256 max_alloc q.2 x d t)
        → let v : World S =
            assigned w
              (lib.log_id origin)
              f
              rest
              q.1
              q.2
              ((w.per.directory_write_token + 1) % word) in
          slot_of dev sha256 max_alloc lib origin true w
          ≡ (ok f, at_slot dev sha256 max_alloc v f (with_journal dev sha256 max_alloc x o.journal))
  unfolding slot_of
  slot_of-stored origin w f rest raw x y d t new free at there encoded wrote other at_x shut o =
      let q = check_and_write dev sha256 w.store y w.per.directory_write_token raw in
      let v : World S =
        assigned w (lib.log_id origin) f rest q.1 q.2 ((w.per.directory_write_token + 1) % word) in
      let found : log_slot dev sha256 lib (lib.log_id origin) true w ≡ (ok f, v) =
        log_slot-stored (lib.log_id origin) w f rest raw y new free at there encoded wrote in
      let opens : open_at dev sha256 max_alloc f v ≡ (
        ok f,
        at_slot dev sha256 max_alloc v f (with_journal dev sha256 max_alloc x o.journal),
      ) =
        open_at-IsStored dev sha256 max_alloc v f x d t
          (get_elem?-set_ne w.per.part.slots q.1 (λ e. other (sym e)) ∙ at_x) shut o in
      rw (found, opens) refl
