-- ===== src/Persistence/Latest.antt =====
-- trusted_applet/internal/storage/persistence.go: Latest after Update.
use Prim.Native.String.{String}
use mathlib.Core.Path.{subst}
use armored_witness_applet.Prelude.{
  ℕ, ◌+◌, ◌≡◌, refl, sym, ap, ◌∙◌, List, Bool, true, false, some, arith, length, ◌==◌, ◌%◌, word,
}
use armored_witness_applet.Result.{
  Error, Result, ok, err, panic, out_of_fuel, invalid_slot, open_log_slot, read_failed,
  unmarshal_checkpoint as unmarshal_failed, write_failed,
}
use armored_witness_applet.Result
use armored_witness_applet.Device.{Device}
use armored_witness_applet.Persistence.{
  Library, World, Exec, ◌>>=◌, lift, renamed, wrap, lookup, read_at, open_at, check_and_write_at,
}
use armored_witness_applet.Persistence.Directory.{log_slot}
use armored_witness_applet.Persistence.Frames.{renamed-ok, renamed-state, check_and_write_at-Same}
use armored_witness_applet.Persistence.Allocation.{log_slot-known, log_slot-ok}
use armored_witness_applet.Persistence.Checkpoints.{
  unmarshal-marshal_checkpoint, slot_of, latest, update, marshal_checkpoint, unmarshal_checkpoint,
}
use armored_witness_applet.Persistence.Opened.{
  IsOpen, continue-ok, open_at-IsOpen, read_at-IsOpen, read_at-ok, check_and_write_at-ok,
  open_at-ok,
}

-- A stored checkpoint is never empty.
pub nonempty : (cp : List ℕ) → (length (marshal_checkpoint cp) == 0) ≡ false
unfolding marshal_checkpoint
nonempty cp = ground arith

module _ {S : Type 0} (dev : Device S) (sha256 : List ℕ → List ℕ) (max_alloc : ℕ)
    (lib : Library) where
  -- A log's slot, as `Update` and `Latest` find it.
  slot_of-ok :
      (origin : String) (create : Bool) (i : ℕ) (w : World S)
      → (slot_of dev sha256 max_alloc lib origin create w).0 ≡ ok i
      → lookup
          (lib.log_id origin)
          (slot_of dev sha256 max_alloc lib origin create w).1.per.id_to_slot
        ≡ some i
  unfolding slot_of open_at
  slot_of-ok origin create i w h =
      let found = log_slot dev sha256 lib (lib.log_id origin) create w in
      let (k, r, step) =
        continue-ok found.0 (λ k. wrap open_log_slot (open_at dev sha256 max_alloc k)) found.1 h in
      let p = open_at dev sha256 max_alloc k found.1 in
      let opens : p ≡ (ok i, (renamed open_log_slot p).1) =
        renamed-ok open_log_slot p (sym (ap (λ q. q.0) step) ∙ h) in
      let same : k ≡ i = open_at-ok dev sha256 max_alloc k i found.1 (ap (λ q. q.0) opens) in
      ap (λ q. lookup (lib.log_id origin) q.1.per.id_to_slot) step
      ∙ ap (λ v. lookup (lib.log_id origin) v.per.id_to_slot) (renamed-state open_log_slot p)
      ∙ log_slot-ok dev sha256 lib (lib.log_id origin) create k w r
      ∙ ap some same

  -- A log whose slot is open and holds a stored checkpoint: `Latest` returns it.
  latest-IsOpen :
      (origin : String) (i : ℕ) (w : World S) (cp : List ℕ) (t : ℕ)
      → lookup (lib.log_id origin) w.per.id_to_slot ≡ some i
      → IsOpen w i (marshal_checkpoint cp) t
      → latest dev sha256 max_alloc lib origin w ≡ (ok cp, w)
  unfolding latest slot_of
  latest-IsOpen origin i w cp t known o =
      let some : (length (marshal_checkpoint cp) == 0) ≡ false = nonempty cp in
      rw
        (
          log_slot-known dev sha256 lib (lib.log_id origin) false i w known,
          open_at-IsOpen dev sha256 max_alloc w i (marshal_checkpoint cp) t o,
          read_at-IsOpen dev sha256 max_alloc w i (marshal_checkpoint cp) t o,
          some,
          unmarshal-marshal_checkpoint lib cp,
        )
        refl

  -- the steps of `Update`, from the last
  abbrev pub finish : ℕ → List ℕ × ℕ → List ℕ → Exec S (Unit {0})
  finish i d new = wrap write_failed (check_and_write_at dev sha256 i d.1 (marshal_checkpoint new))

  abbrev pub with_checkpoint :
      (List ℕ → Result (List ℕ)) → ℕ → List ℕ × ℕ → List ℕ → Exec S (Unit {0})
  with_checkpoint f i d cp = lift (f cp) >>= finish i d

  abbrev pub with_data : (List ℕ → Result (List ℕ)) → ℕ → List ℕ × ℕ → Exec S (Unit {0})
  with_data f i d =
      lift (Result.wrap unmarshal_failed (unmarshal_checkpoint lib d.0)) >>= with_checkpoint f i d

  abbrev pub with_slot : (List ℕ → Result (List ℕ)) → ℕ → Exec S (Unit {0})
  with_slot f i = wrap read_failed (read_at i) >>= with_data f i

  -- What `Update` leaves in a slot that is open.
  with_data-ok :
      (f : List ℕ → Result (List ℕ)) (i : ℕ) (d : List ℕ × ℕ) (w : World S)
      → IsOpen w i d.0 d.1
      → (with_data f i d w).0 ≡ ok tt
      → (cp new : List ℕ) × (f cp ≡ ok new)
        × ((with_data f i d w).1.per.id_to_slot ≡ w.per.id_to_slot)
        × IsOpen (with_data f i d w).1 i (marshal_checkpoint new) ((d.1 + 1) % word)
  with_data-ok f i d w o h =
      let (cp, decoded, step) =
        continue-ok (Result.wrap unmarshal_failed (unmarshal_checkpoint lib d.0))
          (with_checkpoint f i d) w h in
      let (new, made, last) = continue-ok (f cp) (finish i d) w (sym (ap (λ q. q.0) step) ∙ h) in
      let p = check_and_write_at dev sha256 i d.1 (marshal_checkpoint new) w in
      let all : with_data f i d w ≡ renamed write_failed p = step ∙ last in
      let left : (with_data f i d w).1 ≡ p.1 = ap (λ q. q.1) all ∙ renamed-state write_failed p in
      let done : p.0 ≡ ok tt =
        ap (λ q. q.0) (renamed-ok write_failed p (sym (ap (λ q. q.0) all) ∙ h)) in
      (
        cp,
        new,
        made,
        ap (λ v. v.per.id_to_slot) left
            ∙ (check_and_write_at-Same dev sha256 lib i d.1 (marshal_checkpoint new) w).0,
        subst (λ v. IsOpen v i (marshal_checkpoint new) ((d.1 + 1) % word)) (sym left)
            (check_and_write_at-ok dev sha256 max_alloc w i d.0 d.1 (marshal_checkpoint new) o
              done),
      )

  -- After an Update that succeeded, Latest returns the checkpoint that the caller's function made,
  -- from the checkpoint that it was given, and changes nothing.
  pub latest-update :
      (origin : String) (f : List ℕ → Result (List ℕ)) (w : World S)
      → (update dev sha256 max_alloc lib origin f w).0 ≡ ok tt
      → (cp new : List ℕ) × (f cp ≡ ok new)
        × (latest dev sha256 max_alloc lib origin (update dev sha256 max_alloc lib origin f w).1
            ≡ (ok new, (update dev sha256 max_alloc lib origin f w).1))
  unfolding update
  latest-update origin f w h =
      let found = slot_of dev sha256 max_alloc lib origin true w in
      let (i, slot, step) = continue-ok found.0 (with_slot f) found.1 h in
      let w₁ : World S = found.1 in
      let p = renamed read_failed (read_at i w₁) in
      let (d, got, rest) = continue-ok p.0 (with_data f i) p.1 (sym (ap (λ q. q.0) step) ∙ h) in
      let o : IsOpen w₁ i d.0 d.1 =
        read_at-ok dev sha256 max_alloc w₁ i d
          (ap (λ q. q.0) (renamed-ok read_failed (read_at i w₁) got)) in
      let same : p.1 ≡ w₁ =
        ap (λ q. (renamed read_failed q).1) (read_at-IsOpen dev sha256 max_alloc w₁ i d.0 d.1 o) in
      let all : update dev sha256 max_alloc lib origin f w ≡ with_data f i d w₁ =
        step ∙ rest ∙ ap (with_data f i d) same in
      let (cp, new, made, kept, opened_slot) =
        with_data-ok f i d w₁ o (sym (ap (λ q. q.0) all) ∙ h) in
      let known : lookup (lib.log_id origin) (with_data f i d w₁).1.per.id_to_slot ≡ some i =
        ap (lookup (lib.log_id origin)) kept ∙ slot_of-ok origin true i w slot in
      (
        cp,
        new,
        made,
        subst (λ (v : World S). latest dev sha256 max_alloc lib origin v ≡ (ok new, v))
            (sym (ap (λ q. q.1) all))
            (latest-IsOpen origin i (with_data f i d w₁).1 new ((d.1 + 1) % word) known
              opened_slot),
      )
