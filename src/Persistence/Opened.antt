-- ===== src/Persistence/Opened.antt =====
-- trusted_applet/internal/storage/persistence.go: the calls on a slot that is open.
use mathlib.Core.Path.{subst}
use armored_witness_applet.Prelude.{
  ℕ, zero, suc, ◌+◌, ◌≡◌, refl, sym, ap, ◌∙◌, inl, inr, List, [], ◌∷◌, some, get_elem?, set, ◌%◌,
  word, Option-cases, get_elem?-set_of_some,
}
use armored_witness_applet.Result.{Result, ok, err, panic, out_of_fuel, invalid_slot}
use armored_witness_applet.Device.{Device}
use armored_witness_applet.Journal.{Journal}
use armored_witness_applet.Slot.{Slot, read, ensure_open, check_and_write}
use armored_witness_applet.Slot.Versions.{check_and_write_twice}
use armored_witness_applet.Slots.{Partition, open_slot, opened}
use armored_witness_applet.Persistence.{World, continue, read_at, open_at, check_and_write_at}

set_same : {A : Type 0} (xs : List A) (i : ℕ) (x : A) → get_elem? xs i ≡ some x → set xs i x ≡ xs
set_same [] i x h = refl
set_same (y ∷ ys) zero x h = let e : some y ≡ some x = h in ap (λ z. z ∷ ys) (sym (cc e))
set_same (y ∷ ys) (suc i) x h = ap (◌∷◌ y) (set_same ys i x h)

module _ {S : Type 0} where
  -- A chain that succeeds: its first step does, and the rest runs on its outcome.
  pub continue-ok :
      {A B : Type 0}
      → (r : Result A) (f : A → World S → Result B × World S) (w : World S) → {b : B}
      → (continue r f w).0 ≡ ok b
      → (a : A) × (r ≡ ok a) × (continue r f w ≡ f a w)
  continue-ok (ok a) f w h = (a, refl, refl)
  continue-ok (err e) f w h = cc
  continue-ok panic f w h = cc
  continue-ok out_of_fuel f w h = cc

-- A slot that is open at an index.
pub record IsOpen {S : Type 0} (w : World S) (i : ℕ) (d : List ℕ) (t : ℕ) : Type 0 where
  pub slot : Slot
  pub journal : Journal
  pub there : get_elem? w.per.part.slots i ≡ some slot
  pub attached : slot.journal ≡ some journal
  pub reads : read slot ≡ ok (d, t)

module _ {S : Type 0} where
  IsOpen-read :
      (w : World S) (i : ℕ) (d : List ℕ) (t : ℕ) (x : Slot)
      → get_elem? w.per.part.slots i ≡ some x
      → read x ≡ ok (d, t)
      → IsOpen w i d t
  unfolding read
  IsOpen-read w i d t x there reads = elim (Option-cases x.journal) [
    | inl shut ↦ let wrong : read x ≡ panic = rw (shut, read) refl in cc (reads, wrong)
    | inr (j, attached) ↦ record {
      slot = x;
      journal = j;
      there = there;
      attached = attached;
      reads = reads;
    }
  ]

  abbrev written_at : ℕ → World S → Result (Unit {0}) × Slot × S → Result (Unit {0}) × World S
  written_at i w r = (
    r.0,
    record {
      per = record w.per { part = record { slots = set w.per.part.slots i r.1 } };
      store = r.2;
    },
  )

module _ {S : Type 0} (dev : Device S) (sha256 : List ℕ → List ℕ) (max_alloc : ℕ) where
  -- To open a slot that is open changes nothing, and it is read.
  pub open_at-IsOpen :
      (w : World S) (i : ℕ) (d : List ℕ) (t : ℕ)
      → IsOpen w i d t
      → open_at dev sha256 max_alloc i w ≡ (ok i, w)
  unfolding open_at open_slot ensure_open
  open_at-IsOpen w i d t o =
      rw (o.there, o.attached, open_at, open_slot, ensure_open)
        (ap (λ l. (ok i, record w { per = record w.per { part = record { slots = l } } }))
          (set_same w.per.part.slots i o.slot o.there))

  pub read_at-IsOpen :
      (w : World S) (i : ℕ) (d : List ℕ) (t : ℕ) → IsOpen w i d t → read_at i w ≡ (ok (d, t), w)
  unfolding read_at
  read_at-IsOpen w i d t o = rw (o.there, o.reads, read_at) refl

  pub read_at-ok :
      (w : World S) (i : ℕ) (d : List ℕ × ℕ) → (read_at i w).0 ≡ ok d → IsOpen w i d.0 d.1
  unfolding read_at
  read_at-ok w i d h = elim (Option-cases (get_elem? w.per.part.slots i)) [
    | inl missing ↦
        (let wrong : (read_at i w).0 ≡ panic = rw (missing, read_at) refl in cc (h, wrong))
    | inr (x, there) ↦
        (let same : (read_at i w).0 ≡ read x = rw (there, read_at) refl in
          IsOpen-read w i d.0 d.1 x there (sym same ∙ h))
  ]

  pub check_and_write_at-ok :
      (w : World S) (i : ℕ) (d : List ℕ) (t : ℕ) (p : List ℕ)
      → IsOpen w i d t
      → (check_and_write_at dev sha256 i t p w).0 ≡ ok tt
      → IsOpen (check_and_write_at dev sha256 i t p w).1 i p ((t + 1) % word)
  unfolding check_and_write_at
  check_and_write_at-ok w i d t p o h =
      let step : check_and_write_at dev sha256 i t p w
          ≡ written_at i w (check_and_write dev sha256 w.store o.slot t p) =
        rw (o.there, check_and_write_at) refl in
      let done : (check_and_write dev sha256 w.store o.slot t p).0 ≡ ok tt =
        sym (ap (λ r. r.0) step) ∙ h in
      let reads : read (check_and_write dev sha256 w.store o.slot t p).1 ≡ ok (p, (t + 1) % word) =
        (check_and_write_twice dev sha256 w.store o.slot p p d t o.reads done).0 in
      subst (λ (r : Result (Unit {0}) × World S). IsOpen r.1 i p ((t + 1) % word)) (sym step)
        (IsOpen-read (written_at i w (check_and_write dev sha256 w.store o.slot t p)).1 i p
          ((t + 1) % word) (check_and_write dev sha256 w.store o.slot t p).1
          (get_elem?-set_of_some w.per.part.slots i o.slot
            (check_and_write dev sha256 w.store o.slot t p).1 o.there)
          reads)

  opened-ok :
      (k i : ℕ) (p : Partition) (r : Result (Unit {0}) × Slot)
      → (opened dev sha256 max_alloc k p r).0 ≡ ok i
      → k ≡ i
  opened-ok k i p (ok u, x) h = cc
  opened-ok k i p (err e, x) h = cc
  opened-ok k i p (panic, x) h = cc
  opened-ok k i p (out_of_fuel, x) h = cc

  pub open_at-ok : (k i : ℕ) (w : World S) → (open_at dev sha256 max_alloc k w).0 ≡ ok i → k ≡ i
  unfolding open_at open_slot
  open_at-ok k i w h = elim (Option-cases (get_elem? w.per.part.slots k)) [
    | inl missing ↦
        (let wrong : (open_at dev sha256 max_alloc k w).0 ≡ err invalid_slot =
            rw (missing, open_at, open_slot) refl in
          cc (h, wrong))
    | inr (x, there) ↦
        (let step : (open_at dev sha256 max_alloc k w).0
              ≡ (opened dev sha256 max_alloc k w.per.part
                  (ensure_open dev sha256 max_alloc w.store x)).0 =
            rw (there, open_at, open_slot) refl in
          opened-ok k i w.per.part (ensure_open dev sha256 max_alloc w.store x) (sym step ∙ h))
  ]
