-- ===== src/Persistence/Frames.antt =====
-- trusted_applet/internal/storage/persistence.go: what storing the directory leaves as it is.
use mathlib.Core.Path.{subst}
use armored_witness_applet.Prelude.{
  ℕ, ◌≡◌, refl, sym, ap, ◌∙◌, inl, inr, List, Option, none, some, get_elem?, Option-cases,
}
use armored_witness_applet.Result.{Error, Result, ok, err, panic, out_of_fuel, store_mapping}
use armored_witness_applet.Device.{Device}
use armored_witness_applet.Persistence.{Library, World, check_and_write_at, continue, renamed, lift}
use armored_witness_applet.Persistence.Directory.{store_raw, store_directory}

-- The map and the free slots of two states are the same.
abbrev pub Same : {S : Type 0} → World S → World S → Type 0
Same w w' = (w'.per.id_to_slot ≡ w.per.id_to_slot) × (w'.per.free_slots ≡ w.per.free_slots)

module _ {S : Type 0} where
  pub continue-Same :
      {A B : Type 0}
      → (w w' : World S) (r : Result A) (f : A → World S → Result B × World S) → Same w w'
      → ((a : A) → Same w' (f a w').1)
      → Same w (continue r f w').1
  continue-Same w w' (ok a) f h g = ((g a).0 ∙ h.0, (g a).1 ∙ h.1)
  continue-Same w w' (err e) f h g = h
  continue-Same w w' panic f h g = h
  continue-Same w w' out_of_fuel f h g = h

  pub continue-lift :
      {A B : Type 0}
      → (r : Result A) (b c : B) (w : World S) → (continue r (λ _. lift (ok b)) w).0 ≡ ok c
      → b ≡ c
  continue-lift (ok a) b c w h = cc
  continue-lift (err e) b c w h = cc
  continue-lift panic b c w h = cc
  continue-lift out_of_fuel b c w h = cc

  pub renamed-ok :
      {A : Type 0}
      → (e : Error) (p : Result A × World S) → {a : A} → (renamed e p).0 ≡ ok a
      → p ≡ (ok a, (renamed e p).1)
  renamed-ok e (ok a, w) h = ap (λ r. (r, w)) h
  renamed-ok e (err x, w) h = cc
  renamed-ok e (panic, w) h = cc
  renamed-ok e (out_of_fuel, w) h = cc

  pub renamed-state : {A : Type 0} → (e : Error) (p : Result A × World S) → (renamed e p).1 ≡ p.1
  renamed-state e (ok a, w) = refl
  renamed-state e (err x, w) = refl
  renamed-state e (panic, w) = refl
  renamed-state e (out_of_fuel, w) = refl

module _ {S : Type 0} (dev : Device S) (sha256 : List ℕ → List ℕ) (lib : Library) where
  pub check_and_write_at-Same :
      (i token : ℕ) (p : List ℕ) (w : World S)
      → Same w (check_and_write_at dev sha256 i token p w).1
  unfolding check_and_write_at
  check_and_write_at-Same i token p w = elim (Option-cases (get_elem? w.per.part.slots i)) [
    | inl missing ↦ rw (missing, check_and_write_at) (refl, refl)
    | inr (x, at) ↦ rw (at, check_and_write_at) (refl, refl)
  ]

  store_raw-Same : (raw : List ℕ) (w : World S) → Same w (store_raw dev sha256 lib raw w).1
  store_raw-Same raw w = go w.per.directory_slot
    where
      go :
          (o : Option ℕ)
          → Same w
              (elim o as (λ _. Result (Unit {0}) × World S) [
                | none ↦ (panic, w)
                | some i ↦ check_and_write_at dev sha256 i w.per.directory_write_token raw w
              ]).1
      go none = (refl, refl)
      go (some i) = check_and_write_at-Same i w.per.directory_write_token raw w

  pub store_directory-Same : (w : World S) → Same w (store_directory dev sha256 lib w).1
  unfolding store_directory
  store_directory-Same w = elim (Option-cases (lib.marshal_map w.per.id_to_slot)) [
    | inl missing ↦ rw (missing, store_directory) (refl, refl)
    | inr (raw, at) ↦
        rw (at, store_directory)
          (continue-Same w (renamed store_mapping (store_raw dev sha256 lib raw w)).1
            (renamed store_mapping (store_raw dev sha256 lib raw w)).0 _
            (subst (Same w) (sym (renamed-state store_mapping (store_raw dev sha256 lib raw w)))
              (store_raw-Same raw w))
            (λ u. (refl, refl)))
  ]
