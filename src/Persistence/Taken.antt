-- ===== src/Persistence/Taken.antt =====
-- trusted_applet/internal/storage/persistence.go: the free slots after a log was given one.
use Prim.Native.String.{String}
use text.Mathlib.Text.{◌==◌ as same_text}
use armored_witness_applet.Prelude.{
  ℕ, ◌<◌, ◌≡◌, ◌≢◌, refl, sym, ap, ◌∙◌, inl, inr, List, [], ◌∷◌, Bool, true, false, none, some,
  Bool-cases, arith, length, set, replicate, ltb, ◌==◌, length-set, length-replicate,
}
use armored_witness_applet.Result.{Result, ok, err, panic, out_of_fuel}
use armored_witness_applet.Persistence.{SlotMap, lookup, insert}
use armored_witness_applet.Persistence.Directory.{mark, free_list, unused}
use armored_witness_applet.Persistence.Free.{has, free_list_lem}

-- `populateMap` accepts a map with a new log in a slot that is not reserved.
mark-insert :
    (k : String) (f : ℕ) (m : SlotMap) (state marked : List Bool)
    → lookup k m ≡ none
    → f ≢ 0
    → f < length state
    → mark state m ≡ ok marked
    → (state' : List Bool) × (mark state (insert k f m) ≡ ok state')
      × (length state' ≡ length state)
unfolding mark lookup insert
mark-insert k f [] state marked new other inside run =
    let positive : (f == 0) ≡ false = ground (arith, other) in
    let below : ltb f (length state) ≡ true = ground (arith, inside) in
    (set state f true, rw (positive, below) refl, length-set state f true)
mark-insert k f ((j, v) ∷ m) state marked new other inside run = elim (Bool-cases (same_text j k)) [
  | inl t ↦ let wrong : lookup k ((j, v) ∷ m) ≡ some v = rw t refl in cc (new, wrong)
  | inr differs ↦ elim (Bool-cases (v == 0)) [
    | inl zeroth ↦ ground (arith, zeroth, run)
    | inr used ↦ elim (Bool-cases (ltb v (length state))) [
      | inr past ↦ ground (arith, used, past, run)
      | inl below ↦
          (let rest : lookup k m ≡ none =
              let step : lookup k ((j, v) ∷ m) ≡ lookup k m = rw differs refl in sym step ∙ new in
            let more : mark (set state v true) m ≡ ok marked = ground (arith, used, below, run) in
            let (state', run', size) =
              mark-insert k f m (set state v true) marked rest other
                (omega (arith, length-set state v true)) more in
            (state', rw (differs, used, below) run', size ∙ length-set state v true))
    ]
  ]
]

-- The first of the free slots that `populateMap` collects may be given to a log: it is one of the
-- partition, and not the reserved one.
pub free_list-head :
    (n f : ℕ) (rest : List ℕ) (m : SlotMap)
    → free_list n (mark (replicate n false) m) ≡ ok (f ∷ rest)
    → (f < n) × (f ≢ 0)
free_list-head n f rest m listed =
    let (found, _) = free_list_lem n m (f ∷ rest) f listed in
    let here : has f (f ∷ rest) ≡ true = ground arith in
    (ground (arith, found, here), ground (arith, found, here))

-- `populateMap` accepts the map with the new log, too.
pub free_list-insert :
    (n f : ℕ) (rest : List ℕ) (k : String) (m : SlotMap)
    → lookup k m ≡ none
    → free_list n (mark (replicate n false) m) ≡ ok (f ∷ rest)
    → (free : List ℕ) × (free_list n (mark (replicate n false) (insert k f m)) ≡ ok free)
unfolding free_list
free_list-insert n f rest k m new listed = go (mark (replicate n false) m) refl
  where
    fits : (f < n) × (f ≢ 0)
    fits = free_list-head n f rest m listed

    go :
        (r : Result (List Bool))
        → mark (replicate n false) m ≡ r
        → (free : List ℕ) × (free_list n (mark (replicate n false) (insert k f m)) ≡ ok free)
    go (ok marked) e =
        let size : length (replicate n false) ≡ n = length-replicate n false in
        let (state', run, same) =
          mark-insert k f m (replicate n false) marked new fits.1 (omega (arith, fits.0, size)) e in
        let some : ltb 0 (length state') ≡ true = ground (arith, fits.0, same, size) in
        (unused 0 (set state' 0 true), ap (free_list n) run ∙ rw some refl)
    go (err z) e =
        let wrong : free_list n (err z) ≡ ok (f ∷ rest) = ap (free_list n) (sym e) ∙ listed in cc
    go panic e =
        let wrong : free_list n panic ≡ ok (f ∷ rest) = ap (free_list n) (sym e) ∙ listed in cc
    go out_of_fuel e =
        let wrong : free_list n out_of_fuel ≡ ok (f ∷ rest) = ap (free_list n) (sym e) ∙ listed in
        cc
