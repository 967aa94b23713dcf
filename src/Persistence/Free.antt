-- ===== src/Persistence/Free.antt =====
-- trusted_applet/internal/storage/persistence.go: the free slots that populateMap collects.
use native.Mathlib.Decide.{ℕ_discrete}
use armored_witness_applet.Prelude.{
  ℕ, zero, suc, ◌+◌, ◌-◌, ◌<◌, ◌≡◌, refl, sym, ap, ◌∙◌, inl, inr, List, [], ◌∷◌, Bool, true, false,
  not, ◌||◌, ◌&&◌, ◌==◌, leb, ltb, length, set, get_or, arith, replicate, Bool-cases, tests,
  get_or-set_self, get_or-set_ne, length-set, ltb→lt,
}
use armored_witness_applet.Result.{Result, ok, err, panic, out_of_fuel}
use armored_witness_applet.Persistence.{SlotMap}
use armored_witness_applet.Persistence.Directory.{mark, unused, free_list}

-- Whether a slot is among some.
abbrev pub has : ℕ → List ℕ → Bool
has x [] = false
has x (y ∷ ys) = (x == y) || has x ys

-- The slots that a map assigns.
abbrev pub values : SlotMap → List ℕ
values [] = []
values ((k, v) ∷ m) = v ∷ values m

has-unused :
    (x i : ℕ) (bs : List Bool) → has x (unused i bs) ≡ (leb i x && not (get_or bs (x - i) true))
unfolding unused
has-unused x i [] = ground arith
has-unused x i (true ∷ bs) = elim (Bool-cases (leb (suc i) x)) [
  | inl t ↦
      let e : x - i ≡ suc (x - (i + 1)) = omega (tests) in
      rw (has-unused x (i + 1) bs, e) (ground (arith, t))
  | inr f ↦ rw (has-unused x (i + 1) bs) (ground (arith, f))
]
has-unused x i (false ∷ bs) = elim (Bool-cases (leb (suc i) x)) [
  | inl t ↦
      let e : x - i ≡ suc (x - (i + 1)) = omega (tests) in
      rw (has-unused x (i + 1) bs, e) (ground (arith, t))
  | inr f ↦ elim (ℕ_discrete x i) [
    | yes same ↦ let e : x - i ≡ 0 = omega arith in rw e (ground (arith, same))
    | no ne ↦ rw (has-unused x (i + 1) bs) (ground (arith, f, ne))
  ]
]

or_false : (b : Bool) → b ≡ (b || false)
or_false true = refl
or_false false = refl

or_true : (b : Bool) → true ≡ (b || true)
or_true true = refl
or_true false = refl

or_assoc : (a b c : Bool) → ((a || b) || c) ≡ (a || (b || c))
or_assoc true b c = refl
or_assoc false b c = refl

get_or-set :
    (state : List Bool) (v x : ℕ)
    → v < length state
    → get_or (set state v true) x true ≡ (get_or state x true || (x == v))
get_or-set state v x h = elim (ℕ_discrete v x) [
  | yes e ↦
      ap (λ k. get_or (set state v true) k true) (sym e)
      ∙ get_or-set_self state v true true h
      ∙ or_true (get_or state x true)
      ∙ ap (λ b. get_or state x true || b) (ground (arith, e))
  | no ne ↦
      get_or-set_ne state v x true true ne
      ∙ or_false (get_or state x true)
      ∙ ap (λ b. get_or state x true || b) (ground (arith, ne))
]

get_or-mark :
    (x : ℕ) (m : SlotMap) (state state' : List Bool)
    → mark state m ≡ ok state'
    → (get_or state' x true ≡ (get_or state x true || has x (values m)))
      × (has 0 (values m) ≡ false)
      × (length state' ≡ length state)
unfolding mark
get_or-mark x [] state state' h =
    let e : state ≡ state' = cc in
    (ap (λ l. get_or l x true) (sym e) ∙ or_false (get_or state x true), refl, ap length (sym e))
get_or-mark x ((k, v) ∷ m) state state' h = elim (Bool-cases (v == 0)) [
  | inl zeroth ↦ ground (arith, zeroth, h)
  | inr used ↦ elim (Bool-cases (ltb v (length state))) [
    | inr past ↦ ground (arith, used, past, h)
    | inl inside ↦
        (let run : mark (set state v true) m ≡ ok state' = ground (arith, used, inside, h) in
          let (marked, reserved, size) = get_or-mark x m (set state v true) state' run in
          (
            marked
                ∙ ap (λ b. b || has x (values m))
                    (get_or-set state v x (ltb→lt v (length state) inside))
                ∙ or_assoc (get_or state x true) (x == v) (has x (values m)),
            ground (arith, used, reserved),
            size ∙ length-set state v true,
          ))
  ]
]

get_or-replicate : (x n : ℕ) → get_or (replicate n false) x true ≡ not (ltb x n)
get_or-replicate x zero = ground arith
get_or-replicate zero (suc n) = ground arith
get_or-replicate (suc x) (suc n) = get_or-replicate x n ∙ ground arith

not_or : (b a c : Bool) → not ((not b || a) || c) ≡ (b && not (c || a))
not_or true true c = ground arith
not_or true false c = ground arith
not_or false a c = refl

-- The slots that `populateMap` takes for free are those of the partition, but slot 0, that the map
-- does not assign; and the map does not assign slot 0.
pub free_list_lem :
    (n : ℕ) (m : SlotMap) (free : List ℕ) (x : ℕ)
    → free_list n (mark (replicate n false) m) ≡ ok free
    → (has x free ≡ (ltb x n && not ((x == 0) || has x (values m)))) × (has 0 (values m) ≡ false)
unfolding free_list
free_list_lem n m free x h = go (mark (replicate n false) m) refl
  where
    go :
        (r : Result (List Bool))
        → mark (replicate n false) m ≡ r
        → (has x free ≡ (ltb x n && not ((x == 0) || has x (values m))))
          × (has 0 (values m) ≡ false)
    go (ok state) e =
        let h' : free_list n (ok state) ≡ ok free = ap (free_list n) (sym e) ∙ h in
        let (marked, reserved, size) = get_or-mark x m (replicate n false) state e in
        elim (Bool-cases (ltb 0 (length state))) [
          | inr off ↦ absurd (ground (arith, off, h'))
          | inl on ↦
              (let listed : unused 0 (set state 0 true) ≡ free = ground (arith, on, h') in
                let known : get_or state x true ≡ (not (ltb x n) || has x (values m)) =
                  marked ∙ ap (λ b. b || has x (values m)) (get_or-replicate x n) in
                (
                  ap (has x) (sym listed)
                      ∙ has-unused x 0 (set state 0 true)
                      ∙ ap (λ k. leb 0 x && not (get_or (set state 0 true) k true)) (omega arith)
                      ∙ ap (λ b. leb 0 x && not b)
                          (get_or-set state 0 x (ltb→lt 0 (length state) on)
                            ∙ ap (λ b. b || (x == 0)) known)
                      ∙ ap (λ b. b && not ((not (ltb x n) || has x (values m)) || (x == 0)))
                          {x = leb 0 x} {y = true} (ground arith)
                      ∙ not_or (ltb x n) (has x (values m)) (x == 0),
                  reserved,
                ))
        ]
    go (err z) e = let h' : free_list n (err z) ≡ ok free = ap (free_list n) (sym e) ∙ h in cc
    go panic e = let h' : free_list n panic ≡ ok free = ap (free_list n) (sym e) ∙ h in cc
    go out_of_fuel e =
        let h' : free_list n out_of_fuel ≡ ok free = ap (free_list n) (sym e) ∙ h in cc
