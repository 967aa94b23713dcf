-- ===== src/Persistence/Allocation.antt =====
-- trusted_applet/internal/storage/persistence.go: logSlot and addLog, and the slots assigned and free.
use Prim.Native.String.{String}
use text.Mathlib.Text.{◌==◌ as same_text}
use mathlib.Core.Path.{subst, ap₂}
use mathlib.Core.List.{append_assoc}
use text.Mathlib.TextEquality.{eq_iff}
use armored_witness_applet.Prelude.{
  ℕ, ◌≡◌, refl, sym, ap, ◌∙◌, inl, inr, List, [], ◌∷◌, ◌++◌, Bool, true, false, none, some,
  Bool-cases, Option-cases,
}
use armored_witness_applet.Result.{
  Result, ok, err, assign_slot, no_slot_for_log, store_mapping, no_free_slot,
}
use armored_witness_applet.Device.{Device}
use armored_witness_applet.Persistence.{
  SlotMap, lookup, insert, Library, SlotPersistence, World, renamed, lift,
}
use armored_witness_applet.Persistence.Directory.{store_directory, assign, add_log, log_slot}
use armored_witness_applet.Persistence.Free.{values}
use armored_witness_applet.Persistence.Frames.{
  Same, continue-Same, continue-lift, renamed-ok, renamed-state, store_directory-Same,
}

pub lookup-insert : (k : String) (v : ℕ) (m : SlotMap) → lookup k (insert k v m) ≡ some v
unfolding lookup insert
lookup-insert k v [] = rw ((eq_iff k k).1 refl) refl
lookup-insert k v ((j, w) ∷ m) = elim (Bool-cases (same_text j k)) [
  | inl t ↦ rw (t, (eq_iff k k).1 refl) refl
  | inr f ↦ rw (f, f) (lookup-insert k v m)
]

values-insert :
    (k : String) (v : ℕ) (m : SlotMap)
    → lookup k m ≡ none
    → values (insert k v m) ≡ values m ++ (v ∷ [])
unfolding lookup insert
values-insert k v [] h = refl
values-insert k v ((j, w) ∷ m) h = elim (Bool-cases (same_text j k)) [
  | inl t ↦ let wrong : lookup k ((j, w) ∷ m) ≡ some w = rw t refl in cc (h, wrong)
  | inr f ↦ rw f (
      ap (◌∷◌ w) (
        values-insert k v m
          (let step : lookup k ((j, w) ∷ m) ≡ lookup k m = rw f refl in sym step ∙ h)))
]

-- The slots of a persistence: those assigned to logs, then the free ones.
abbrev pub pool : SlotPersistence → List ℕ
pool per = values per.id_to_slot ++ per.free_slots

module _ {S : Type 0} (dev : Device S) (sha256 : List ℕ → List ℕ) (lib : Library) where
  -- What `addLog` does with a free slot, whether the directory can be stored or not.
  assign-entries :
      (id : String) (f : ℕ) (rest : List ℕ) (w : World S)
      → let w' = (assign dev sha256 lib id f rest w).1 in
        (w'.per.id_to_slot ≡ insert id f w.per.id_to_slot) × (w'.per.free_slots ≡ rest)
  unfolding assign
  assign-entries id f rest w =
      let taken : World S = record w {
        per = record w.per { free_slots = rest; id_to_slot = insert id f w.per.id_to_slot };
      } in
      let stored = store_directory dev sha256 lib taken in
      continue-Same taken (renamed store_mapping stored).1 (renamed store_mapping stored).0
        (λ _. lift (ok f))
        (subst (Same taken) (sym (renamed-state store_mapping stored))
          (store_directory-Same dev sha256 lib taken))
        (λ u. (refl, refl))

  log_slot-new :
      (id : String) (w : World S)
      → lookup id w.per.id_to_slot ≡ none
      → log_slot dev sha256 lib id true w ≡ renamed assign_slot (add_log dev sha256 lib id w)
  unfolding log_slot
  log_slot-new id w new = rw (new, log_slot) refl

  abbrev from_free : String → List ℕ → World S → Result ℕ × World S
  from_free id [] w = (err no_free_slot, w)
  from_free id (f ∷ rest) w = assign dev sha256 lib id f rest w

  add_log-new :
      (id : String) (w : World S)
      → lookup id w.per.id_to_slot ≡ none
      → add_log dev sha256 lib id w ≡ from_free id w.per.free_slots w
  unfolding add_log
  add_log-new id w new = rw (new, add_log) (go w.per.free_slots)
    where
      go :
          (l : List ℕ)
          → (elim l as (λ _. Result ℕ × World S) [
            | [] ↦ (err no_free_slot, w)
            | f ∷ rest ↦ assign dev sha256 lib id f rest w
          ])
            ≡ from_free id l w
      go [] = refl
      go (f ∷ rest) = refl

  -- `logSlot` where the log has no slot, and there is one.
  pub log_slot-assigns :
      (id : String) (f : ℕ) (rest : List ℕ) (w : World S)
      → lookup id w.per.id_to_slot ≡ none
      → w.per.free_slots ≡ f ∷ rest
      → log_slot dev sha256 lib id true w ≡ renamed assign_slot (assign dev sha256 lib id f rest w)
  log_slot-assigns id f rest w new free =
      log_slot-new id w new
      ∙ ap (renamed assign_slot) (add_log-new id w new ∙ ap (λ l. from_free id l w) free)

  pub log_slot-known :
      (id : String) (create : Bool) (i : ℕ) (w : World S)
      → lookup id w.per.id_to_slot ≡ some i
      → log_slot dev sha256 lib id create w ≡ (ok i, w)
  unfolding log_slot
  log_slot-known id create i w known = rw (known, log_slot) refl

  log_slot-full :
      (id : String) (w : World S)
      → lookup id w.per.id_to_slot ≡ none
      → w.per.free_slots ≡ []
      → log_slot dev sha256 lib id true w ≡ (err assign_slot, w)
  log_slot-full id w new full =
      log_slot-new id w new
      ∙ ap (renamed assign_slot) (add_log-new id w new ∙ ap (λ l. from_free id l w) full)

  log_slot-absent :
      (id : String) (w : World S)
      → lookup id w.per.id_to_slot ≡ none
      → log_slot dev sha256 lib id false w ≡ (err no_slot_for_log, w)
  unfolding log_slot
  log_slot-absent id w new = rw (new, log_slot) refl

  -- Whatever becomes of `logSlot`, no slot is lost and none is taken twice: the slots assigned and
  -- those free are the same list as before.
  pub log_slot-pool :
      (id : String) (create : Bool) (w : World S)
      → pool (log_slot dev sha256 lib id create w).1.per ≡ pool w.per
  log_slot-pool id create w = elim (Option-cases (lookup id w.per.id_to_slot)) [
    | inr (i, known) ↦ ap (λ p. pool p.1.per) (log_slot-known id create i w known)
    | inl new ↦ go create w.per.free_slots refl new
  ]
    where
      go :
          (c : Bool) (free : List ℕ)
          → w.per.free_slots ≡ free
          → lookup id w.per.id_to_slot ≡ none
          → pool (log_slot dev sha256 lib id c w).1.per ≡ pool w.per
      go false free e new = ap (λ p. pool p.1.per) (log_slot-absent id w new)
      go true [] e new = ap (λ p. pool p.1.per) (log_slot-full id w new e)
      go true (f ∷ rest) e new =
          let (entries, left) = assign-entries id f rest w in
          ap (λ p. pool p.1.per) (log_slot-assigns id f rest w new e)
          ∙ ap (λ v. pool v.per) (renamed-state assign_slot (assign dev sha256 lib id f rest w))
          ∙ ap₂ (λ m l. values m ++ l) entries left
          ∙ ap (λ l. l ++ rest) (values-insert id f w.per.id_to_slot new)
          ∙ append_assoc (values w.per.id_to_slot) (f ∷ []) rest
          ∙ ap (λ l. values w.per.id_to_slot ++ l) (sym e)

  assign-ok :
      (id : String) (f : ℕ) (rest : List ℕ) (w : World S) (i : ℕ)
      → (assign dev sha256 lib id f rest w).0 ≡ ok i
      → f ≡ i
  unfolding assign
  assign-ok id f rest w i h =
      let taken : World S = record w {
        per = record w.per { free_slots = rest; id_to_slot = insert id f w.per.id_to_slot };
      } in
      let stored = renamed store_mapping (store_directory dev sha256 lib taken) in
      continue-lift stored.0 f i stored.1 h

  log_slot-entry :
      (id : String) (f : ℕ) (rest : List ℕ) (w : World S)
      → lookup id w.per.id_to_slot ≡ none
      → w.per.free_slots ≡ f ∷ rest
      → lookup id (log_slot dev sha256 lib id true w).1.per.id_to_slot ≡ some f
  log_slot-entry id f rest w new free =
      ap (λ p. lookup id p.1.per.id_to_slot) (log_slot-assigns id f rest w new free)
      ∙ ap (λ v. lookup id v.per.id_to_slot)
          (renamed-state assign_slot (assign dev sha256 lib id f rest w))
      ∙ ap (lookup id) (assign-entries id f rest w).0
      ∙ lookup-insert id f w.per.id_to_slot

  -- A log that was given a slot keeps it, also where the directory could not be stored: the call
  -- fails, and each later one returns the slot, with no write.
  pub log_slot-again :
      (id : String) (create : Bool) (f : ℕ) (rest : List ℕ) (w : World S)
      → lookup id w.per.id_to_slot ≡ none
      → w.per.free_slots ≡ f ∷ rest
      → let w' = (log_slot dev sha256 lib id true w).1 in
        log_slot dev sha256 lib id create w' ≡ (ok f, w')
  log_slot-again id create f rest w new free =
      log_slot-known id create f (log_slot dev sha256 lib id true w).1
        (log_slot-entry id f rest w new free)

  -- A slot that `logSlot` returns is the one that the map assigns to the log afterwards.
  pub log_slot-ok :
      (id : String) (create : Bool) (i : ℕ) (w : World S)
      → (log_slot dev sha256 lib id create w).0 ≡ ok i
      → lookup id (log_slot dev sha256 lib id create w).1.per.id_to_slot ≡ some i
  log_slot-ok id create i w done = elim (Option-cases (lookup id w.per.id_to_slot)) [
    | inr (k, known) ↦
        (let step = log_slot-known id create k w known in
          ap (λ p. lookup id p.1.per.id_to_slot) step
          ∙ known
          ∙ ap some (ok-injective k i (sym (ap (λ p. p.0) step) ∙ done)))
    | inl new ↦ go create w.per.free_slots refl new done
  ]
    where
      ok-injective : (a b : ℕ) → ok a ≡ ok b → a ≡ b
      ok-injective a b e = cc

      go :
          (c : Bool) (free : List ℕ)
          → w.per.free_slots ≡ free
          → lookup id w.per.id_to_slot ≡ none
          → (log_slot dev sha256 lib id c w).0 ≡ ok i
          → lookup id (log_slot dev sha256 lib id c w).1.per.id_to_slot ≡ some i
      go false free e new h =
          let wrong : err no_slot_for_log ≡ ok i =
            sym (ap (λ p. p.0) (log_slot-absent id w new)) ∙ h in
          cc
      go true [] e new h =
          let wrong : err assign_slot ≡ ok i = sym (ap (λ p. p.0) (log_slot-full id w new e)) ∙ h in
          cc
      go true (f ∷ rest) e new h =
          log_slot-entry id f rest w new e
          ∙ ap some (
              assign-ok id f rest w i (
                ap (λ p. p.0)
                  (renamed-ok assign_slot (assign dev sha256 lib id f rest w)
                    (sym (ap (λ p. p.0) (log_slot-assigns id f rest w new e)) ∙ h))))
