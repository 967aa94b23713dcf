-- ===== src/Clock.antt =====
-- trusted_applet/net.go: runNTP, which sets the clock and signals the first time that it does.
use armored_witness_applet.Prelude.{
  ℕ, inl, inr, Bool-cases, ◌≡◌, ◌≢◌, refl, ap, ◌∙◌, Bool, true, false, List, [], ◌∷◌, Option, none,
  some, if◌then◌else◌,
}
use armored_witness_applet.Result.{Result, ok, panic, ◌>>=◌}

-- What the calls of a round return: the addresses of the server, or an error, and the response of
-- each of them, or an error.
pub record Attempt (I R : Type 0) : Type 0 where
  pub addresses : Option (List I)
  pub query : I → Option R

-- The interval in seconds; the variable `r` of the goroutine, which is nil once it has signalled;
-- whether the channel that was returned is closed; and the time that was set.
pub record Clock : Type 0 where
  pub interval : ℕ
  pub r : Bool
  pub closed : Bool
  pub time : Option ℕ

abbrev pub first_clock : Clock
first_clock = record { interval = 10; r = true; closed = false; time = none }

-- `close(r)`, which panics on a channel that is closed
unfoldable pub close_channel : Clock → Result Clock
close_channel c = if c.closed then panic else ok (record c { closed = true; r = false })

-- The package ntp: whether Validate returns no error, and the time of a response in nanoseconds.
module _ {R : Type 0} (validate : R → Bool) (unix_nano : R → ℕ) where
  unfoldable pub set_time : R → Clock → Result Clock
  set_time resp c =
      let c' : Clock = record c { time = some (unix_nano resp); interval = 3600 } in
      if c'.r then close_channel c' else ok c'

  -- the round from the query on; a `continue` leaves the clock as it is
  unfoldable pub answered : Option R → Clock → Result Clock
  answered none c = ok c
  answered (some resp) c = if validate resp then set_time resp c else ok c

  -- the time of a response that is accepted
  unfoldable pub accepted_time : Option R → Option ℕ
  accepted_time none = none
  accepted_time (some resp) = if validate resp then some (unix_nano resp) else none

  module _ {I : Type 0} where
    -- `ip[0]` panics where there is no address
    unfoldable pub ask : Option (List I) → (I → Option R) → Clock → Result Clock
    ask none query c = ok c
    ask (some []) query c = panic
    ask (some (ip ∷ _)) query c = answered (query ip) c

    unfoldable pub ntp_rounds : List (Attempt I R) → Clock → Result Clock
    ntp_rounds [] c = ok c
    ntp_rounds (a ∷ more) c = ask a.addresses a.query c >>= ntp_rounds more

    unfoldable pub time_of : Option (List I) → (I → Option R) → Option ℕ
    time_of none query = none
    time_of (some []) query = none
    time_of (some (ip ∷ _)) query = accepted_time (query ip)

-- the later of two times
abbrev pub newer : Option ℕ → Option ℕ → Option ℕ
newer none t = t
newer (some n) t = some n

-- The clock that belongs to a time.
abbrev pub clock_at : Option ℕ → Clock
clock_at none = first_clock
clock_at (some t) = record { interval = 3600; r = false; closed = true; time = some t }

module _ {R : Type 0} (validate : R → Bool) (unix_nano : R → ℕ) where
  set_time-clock_at :
      (resp : R) (t : Option ℕ)
      → set_time validate unix_nano resp (clock_at t) ≡ ok (clock_at (some (unix_nano resp)))
  unfolding set_time close_channel
  set_time-clock_at resp none = refl
  set_time-clock_at resp (some t) = refl

  answered-clock_at :
      (o : Option R) (t : Option ℕ)
      → answered validate unix_nano o (clock_at t)
        ≡ ok (clock_at (newer (accepted_time validate unix_nano o) t))
  unfolding answered accepted_time
  answered-clock_at none t = refl
  answered-clock_at (some resp) t = elim (Bool-cases (validate resp)) [
    | inl e ↦ rw e (set_time-clock_at resp t)
    | inr e ↦ rw e refl
  ]

module _ {I R : Type 0} (validate : R → Bool) (unix_nano : R → ℕ) where
  -- the last time that rounds accept, and `t` if there is none
  unfoldable pub last_time : List (Attempt I R) → Option ℕ → Option ℕ
  last_time [] t = t
  last_time (a ∷ more) t = last_time more (newer (time_of validate unix_nano a.addresses a.query) t)

  -- Where the lookup succeeds, it has an address.
  abbrev pub HaveAddresses : List (Attempt I R) → Type 0
  HaveAddresses [] = Unit
  HaveAddresses (a ∷ more) = (a.addresses ≢ some []) × HaveAddresses more

  ask-clock_at :
      (o : Option (List I)) (query : I → Option R) (t : Option ℕ)
      → o ≢ some []
      → ask validate unix_nano o query (clock_at t)
        ≡ ok (clock_at (newer (time_of validate unix_nano o query) t))
  unfolding ask time_of
  ask-clock_at none query t h = refl
  ask-clock_at (some []) query t h = absurd (h refl)
  ask-clock_at (some (ip ∷ _)) query t h = answered-clock_at validate unix_nano (query ip) t

  -- The loop never panics, in particular it closes the channel once at most. However many rounds
  -- it runs, the clock has the last time that was accepted, and once there is one, the channel is
  -- closed, and the interval is an hour; before, it is ten seconds. The lookup of a name does not
  -- succeed with no address.
  pub ntp_rounds_lem :
      (rounds : List (Attempt I R)) (t : Option ℕ)
      → HaveAddresses rounds
      → ntp_rounds validate unix_nano rounds (clock_at t) ≡ ok (clock_at (last_time rounds t))
  unfolding ntp_rounds last_time
  ntp_rounds_lem [] t h = refl
  ntp_rounds_lem (a ∷ more) t (h, hs) =
      ap (λ r. r >>= ntp_rounds validate unix_nano more) (ask-clock_at a.addresses a.query t h)
      ∙ ntp_rounds_lem more (newer (time_of validate unix_nano a.addresses a.query) t) hs
