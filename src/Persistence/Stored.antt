-- ===== src/Persistence/Stored.antt =====
-- trusted_applet/internal/storage/persistence.go: populateMap on what storeDirectory has stored.
use mathlib.Core.Path.{subst}
use armored_witness_applet.Prelude.{
  ℕ, ◌+◌, ◌%◌, ◌≡◌, refl, sym, ap, ◌∙◌, List, [], Option, Option-cases, none, some, inl, inr, word,
  get_elem?, replicate, false,
}
use armored_witness_applet.Result.{Result, ok, err, panic, out_of_fuel, store_mapping, read_failed}
use armored_witness_applet.Device.{Device}
use armored_witness_applet.Slots.{num_slots}
use armored_witness_applet.Persistence.{
  SlotMap, Library, World, Exec, continue, renamed, wrap, read_at, check_and_write_at, ◌>>=◌,
}
use armored_witness_applet.Persistence.Directory.{
  store_directory, load_map, populate_map, free_list, mark,
}
use armored_witness_applet.Persistence.Frames.{renamed-ok, renamed-state}
use armored_witness_applet.Persistence.Opened.{
  IsOpen, continue-ok, read_at-IsOpen, check_and_write_at-ok,
}

some-injective : {A : Type 0} {a b : A} → some a ≡ some b → a ≡ b
some-injective e = cc

module _ {S : Type 0} where
  -- The persistence as a start finds it: the map is empty.
  abbrev pub emptied : World S → World S
  emptied w = record w { per = record w.per { id_to_slot = []; free_slots = [] } }

  -- with another token
  abbrev with_token : ℕ → World S → World S
  with_token t w = record w { per = record w.per { directory_write_token = t } }

  IsOpen-with_token :
      (w : World S) (i : ℕ) (d : List ℕ) (t u : ℕ) → IsOpen w i d t → IsOpen (with_token u w) i d t
  IsOpen-with_token w i d t u o = record {
    slot = o.slot;
    journal = o.journal;
    there = o.there;
    attached = o.attached;
    reads = o.reads;
  }

  IsOpen-emptied :
      (w : World S) (i : ℕ) (d : List ℕ) (t : ℕ) → IsOpen w i d t → IsOpen (emptied w) i d t
  IsOpen-emptied w i d t o = record {
    slot = o.slot;
    journal = o.journal;
    there = o.there;
    attached = o.attached;
    reads = o.reads;
  }

  -- The map and the token that a populated persistence has.
  continue-loaded :
      (r : Result (List ℕ)) (f : List ℕ → Exec S (Unit {0})) (w : World S)
      → ((free : List ℕ)
          → ((f free w).1.per.id_to_slot ≡ w.per.id_to_slot)
            × ((f free w).1.per.directory_write_token ≡ w.per.directory_write_token))
      → ((continue r f w).1.per.id_to_slot ≡ w.per.id_to_slot)
        × ((continue r f w).1.per.directory_write_token ≡ w.per.directory_write_token)
  continue-loaded (ok free) f w h = h free
  continue-loaded (err e) f w h = (refl, refl)
  continue-loaded panic f w h = (refl, refl)
  continue-loaded out_of_fuel f w h = (refl, refl)

module _ {S : Type 0} (dev : Device S) (sha256 : List ℕ → List ℕ) (max_alloc : ℕ)
    (lib : Library) where
  check_and_write_at-directory :
      (i token : ℕ) (p : List ℕ) (w : World S)
      → ((check_and_write_at dev sha256 i token p w).1.per.directory_slot ≡ w.per.directory_slot)
        × ((check_and_write_at dev sha256 i token p w).1.per.directory_write_token
            ≡ w.per.directory_write_token)
  unfolding check_and_write_at
  check_and_write_at-directory i token p w = elim (Option-cases (get_elem? w.per.part.slots i)) [
    | inl missing ↦ rw (missing, check_and_write_at) (refl, refl)
    | inr (x, at) ↦ rw (at, check_and_write_at) (refl, refl)
  ]

  -- What a `storeDirectory` that succeeds leaves.
  store_directory-ok :
      (w : World S) (i : ℕ) (d raw : List ℕ)
      → w.per.directory_slot ≡ some i
      → IsOpen w i d w.per.directory_write_token
      → lib.marshal_map w.per.id_to_slot ≡ some raw
      → (store_directory dev sha256 lib w).0 ≡ ok tt
      → IsOpen
          (store_directory dev sha256 lib w).1
          i
          raw
          (store_directory dev sha256 lib w).1.per.directory_write_token
        × ((store_directory dev sha256 lib w).1.per.directory_slot ≡ some i)
  unfolding store_directory
  store_directory-ok w i d raw at o encoded h =
      let t = w.per.directory_write_token in
      let q = check_and_write_at dev sha256 i t raw w in
      let bump : Unit {0} → Exec S (Unit {0}) =
        λ _ v. (ok tt, with_token ((v.per.directory_write_token + 1) % word) v) in
      let p = renamed store_mapping q in
      let step : store_directory dev sha256 lib w ≡ continue p.0 bump p.1 =
        rw (encoded, at, store_directory) refl in
      let (u, r, last) = continue-ok p.0 bump p.1 (sym (ap (λ x. x.0) step) ∙ h) in
      let done : q.0 ≡ ok tt = ap (λ x. x.0) (renamed-ok store_mapping q r) in
      let all : (store_directory dev sha256 lib w).1
          ≡ with_token ((q.1.per.directory_write_token + 1) % word) q.1 =
        ap (λ x. x.1) (step ∙ last)
        ∙ ap (λ v. with_token ((v.per.directory_write_token + 1) % word) v)
            (renamed-state store_mapping q) in
      let kept = check_and_write_at-directory i t raw w in
      let now : IsOpen q.1 i raw ((q.1.per.directory_write_token + 1) % word) =
        subst (λ k. IsOpen q.1 i raw ((k + 1) % word)) (sym kept.1)
          (check_and_write_at-ok dev sha256 max_alloc w i d t raw o done) in
      subst
        (λ (v : World S).
          IsOpen v i raw v.per.directory_write_token × (v.per.directory_slot ≡ some i))
        (sym all)
        (
          IsOpen-with_token q.1 i raw ((q.1.per.directory_write_token + 1) % word)
              ((q.1.per.directory_write_token + 1) % word) now,
          kept.0 ∙ at,
        )

  load_map-loaded :
      (raw : List ℕ) (t : ℕ) (m : SlotMap) (w : World S)
      → lib.unmarshal_map raw w.per.id_to_slot ≡ some m
      → ((load_map lib (raw, t) w).1.per.id_to_slot ≡ m)
        × ((load_map lib (raw, t) w).1.per.directory_write_token ≡ t)
  unfolding load_map
  load_map-loaded raw t m w decoded =
      rw (decoded, load_map)
        (continue-loaded
          (free_list (num_slots w.per.part) (mark (replicate (num_slots w.per.part) false) m)) _
          (record w { per = record w.per { id_to_slot = m; directory_write_token = t } })
          (λ free. (refl, refl)))

  pub populate_map-read :
      (w : World S) (i : ℕ) (d : List ℕ × ℕ)
      → w.per.directory_slot ≡ some i
      → read_at i w ≡ (ok d, w)
      → populate_map lib w ≡ load_map lib d w
  unfolding populate_map
  populate_map-read w i d at read = go w.per.directory_slot at
    where
      go :
          (o : Option ℕ)
          → o ≡ some i
          → (elim o as (λ _. Result (Unit {0}) × World S) [
            | none ↦ (panic, w)
            | some i ↦ (wrap read_failed (read_at i) >>= load_map lib) w
          ])
            ≡ load_map lib d w
      go none e = absurd (cc e)
      go (some j) e =
          ap
            (λ (x : Result (List ℕ × ℕ) × World S).
              continue (renamed read_failed x).0 (load_map lib) (renamed read_failed x).1)
            (ap (λ k. read_at k w) (some-injective e) ∙ read)

  -- What storeDirectory has stored with success, populateMap reads: with its map emptied, as at a
  -- start, the persistence gets the map back, and the token under which the directory is written
  -- next. The slot of the directory was open with its token, and YAML decodes what it encoded.
  pub populate_map-store_directory :
      (w : World S) (i : ℕ) (d raw : List ℕ)
      → w.per.directory_slot ≡ some i
      → IsOpen w i d w.per.directory_write_token
      → lib.marshal_map w.per.id_to_slot ≡ some raw
      → lib.unmarshal_map raw [] ≡ some w.per.id_to_slot
      → (store_directory dev sha256 lib w).0 ≡ ok tt
      → ((populate_map lib (emptied (store_directory dev sha256 lib w).1)).1.per.id_to_slot
          ≡ w.per.id_to_slot)
        × ((populate_map lib
              (emptied (store_directory dev sha256 lib w).1)).1.per.directory_write_token
            ≡ (store_directory dev sha256 lib w).1.per.directory_write_token)
  populate_map-store_directory w i d raw at o encoded decoded h =
      let w' : World S = (store_directory dev sha256 lib w).1 in
      let (open_slot, there) = store_directory-ok w i d raw at o encoded h in
      let t = w'.per.directory_write_token in
      let read : read_at i (emptied w') ≡ (ok (raw, t), emptied w') =
        read_at-IsOpen dev sha256 max_alloc (emptied w') i raw t
          (IsOpen-emptied w' i raw t open_slot) in
      let step : populate_map lib (emptied w') ≡ load_map lib (raw, t) (emptied w') =
        populate_map-read (emptied w') i (raw, t) there read in
      let (m, k) = load_map-loaded raw t w.per.id_to_slot (emptied w') decoded in
      (ap (λ x. x.1.per.id_to_slot) step ∙ m, ap (λ x. x.1.per.directory_write_token) step ∙ k)
