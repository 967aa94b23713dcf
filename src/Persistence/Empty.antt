-- ===== src/Persistence/Empty.antt =====
-- trusted_applet/internal/storage/persistence.go: Init of a device that holds no record.
use Prim.Native.String.{String}
use mathlib.Core.Path.{subst}
use armored_witness_applet.Prelude.{
  ℕ, ◌≢◌, arith, length, ◌≤◌, ◌<◌, ◌≡◌, refl, sym, ap, ◌∙◌, List, [], ◌∷◌, false, none, some,
  get_elem?, replicate, get_elem?-set_of_some, get_elem?-set_ne,
}
use armored_witness_applet.Result.{Result, ok}
use armored_witness_applet.Device.{Device}
use armored_witness_applet.Device.Laws.{IsBlockStore}
use armored_witness_applet.Journal.{Journal}
use armored_witness_applet.Journal.Chain.{Unreadable}
use armored_witness_applet.Journal.Blank.{fresh}
use armored_witness_applet.Slot.{Slot}
use armored_witness_applet.Slot.Settled.{end, Apart}
use armored_witness_applet.Slots.{Partition, num_slots}
use armored_witness_applet.Slots.LaidAgain.{num_slots-set}
use armored_witness_applet.Persistence.{Library, World, lookup, new_slot_persistence}
use armored_witness_applet.Persistence.Directory.{init, free_list, mark, unused}
use armored_witness_applet.Persistence.Restart.{init-ok, with_journal, populated}
use armored_witness_applet.Persistence.Served.{started}
use armored_witness_applet.Persistence.Created.{IsNew}
use armored_witness_applet.Persistence.Blank.{IsRoom, blank-IsStored, blank-IsInStep}

-- The slots of a partition but slot 0 are free where the map is empty, and slot 1 is the first.
first_free :
    (slots : List Slot) (x : Slot)
    → get_elem? slots 1 ≡ some x
    → (rest : List ℕ) × (free_list (length slots) (mark (replicate (length slots) false) [])
        ≡ ok (1 ∷ rest))
unfolding free_list mark unused
first_free [] x e = absurd (cc e)
first_free (y ∷ []) x e = absurd (cc e)
first_free (y ∷ z ∷ zs) x e = (unused 2 (replicate (length zs) false), ground arith)

module _ {S : Type 0} {dev : Device S} {capacity : ℕ} {Valid : S → Type 0} {block : S → ℕ → List ℕ}
    (laws : IsBlockStore dev capacity Valid block) (sha256 : List ℕ → List ℕ) (max_alloc : ℕ)
    (lib : Library) where
  -- Init of a device whose slot 0 holds no record, where YAML decodes nothing to the empty map: it
  -- succeeds, and the first of the free slots, which the first log may be given, is slot 1.
  pub init-IsNew :
      (part : Partition) (s : S) (origin : String) (x y : Slot)
      → Valid s
      → get_elem? part.slots 0 ≡ some y
      → y.journal ≡ none
      → IsRoom dev.block_size capacity y
      → ((i : ℕ) → y.start ≤ i → i < end y → Unreadable dev sha256 max_alloc s i)
      → lib.unmarshal_map [] [] ≡ some []
      → get_elem? part.slots 1 ≡ some x
      → x.journal ≡ none
      → Apart x y
      → ((init dev sha256 max_alloc lib (started part s)).0 ≡ ok tt)
        × ((y' : Slot) × (k : Journal) × IsNew dev capacity block sha256 max_alloc lib
              (init dev sha256 max_alloc lib (started part s)).1
              origin
              1
              x
              y'
              k)
  unfolding new_slot_persistence lookup num_slots
  init-IsNew part s origin x y valid at_y shut_y room blank decoded at_x shut_x apart =
      let (rest, listed) = first_free part.slots x at_x in
      let k : Journal = fresh dev.block_size y.start y.extent in
      let y' : Slot = with_journal dev sha256 max_alloc y k in
      let up : World S = populated dev sha256 max_alloc lib (started part s) y' 0 [] (1 ∷ rest) in
      let ran : init dev sha256 max_alloc lib (started part s) ≡ (ok tt, up) =
        init-ok dev sha256 max_alloc lib (started part s) y [] 0 [] (1 ∷ rest) refl at_y shut_y
          (blank-IsStored laws sha256 max_alloc s y valid room blank) decoded listed in
      let other : 1 ≢ 0 = λ e. omega (arith, e) in
      let new : IsNew dev capacity block sha256 max_alloc lib up origin 1 x y' k = record {
        unknown = refl;
        rest = rest;
        free = refl;
        listed =
            ap (λ n. free_list n (mark (replicate n false) [])) (num_slots-set part 0 y') ∙ listed;
        there = get_elem?-set_ne part.slots y' (λ e. other (sym e)) ∙ at_x;
        shut = shut_x;
        directory_slot = refl;
        directory = get_elem?-set_of_some part.slots 0 y y' at_y;
        step = blank-IsInStep laws sha256 max_alloc s y room blank;
        token = refl;
        apart = apart;
      } in
      subst
        (λ (p : Result (Unit {0}) × World S).
          (p.0 ≡ ok tt)
          × ((y' : Slot) × (k : Journal) × IsNew dev capacity block sha256 max_alloc lib p.1 origin
                1 x y' k))
        (sym ran) (refl, (y', k, new))
