-- ===== src/Tests/Wire.antt =====
-- Tests of frames: the wake-ups of a handler, and a frame over a wire.
use armored_witness_applet.Prelude.{
  ℕ, ◌≡◌, ◌≤◌, refl, ap, List, [], ◌∷◌, ◌++◌, Option, some, none, Bool, true, arith, length, take,
  drop, length-append, length-take, length-drop, take-all,
}
use armored_witness_applet.Result.{ok}
use armored_witness_applet.Frames.{
  Inbound, Outbound, tx, drain, event_handler, write_notify, put_uint16, concat,
}
use armored_witness_applet.Frames.Draining.{IsQueue}
use armored_witness_applet.Frames.Delivered.{Delivers, inject_all}
use armored_witness_applet.Frames.Waking.{
  none as no_more, woken, event_handler_lem, write_notify-drain,
}

-- A stack that keeps what it is given
abbrev inject : List Inbound → Inbound → List Inbound
inject seen frame = frame ∷ seen

-- A system that has frames waiting, which `receive` copies into the buffer.
abbrev receive : List (List ℕ) → List ℕ → ℕ × List ℕ × List (List ℕ)
receive [] out = (0, out, [])
receive (f ∷ fs) out = (length f, take (length out) f ++ drop (length f) out, fs)

receive-IsQueue : IsQueue receive (λ s. s)
receive-IsQueue = record { idle = idle; buffer = buffer; next = next }
  where
    idle :
        (s : List (List ℕ)) (out : List ℕ)
        → s ≡ []
        → ((receive s out).0 ≡ 0) × ((receive s out).2 ≡ [])
    idle [] out e = (refl, refl)
    idle (f ∷ fs) out e = absurd (cc e)

    buffer : (s : List (List ℕ)) (out : List ℕ) → length (receive s out).1 ≡ length out
    buffer [] out = refl
    buffer (f ∷ fs) out = omega (
      arith,
      length-append (take (length out) f) (drop (length f) out),
      length-take (length out) f,
      length-drop (length f) out,
    )

    next :
        (s : List (List ℕ)) (out f : List ℕ) (fs : List (List ℕ))
        → s ≡ f ∷ fs
        → length f ≤ length out
        → ((receive s out).0 ≡ length f)
          × ((receive s out).1 ≡ f ++ drop (length f) out)
          × ((receive s out).2 ≡ fs)
    next s out f fs e fit =
        rw e (refl, ap (λ l. l ++ drop (length f) out) (take-all (length out) f fit), refl)

-- Frames of two bytes of payload, and of none; and one that is cut in its header.
abbrev first_frames : List (List ℕ)
first_frames =
    (255 ∷ 255 ∷ 255 ∷ 255 ∷ 255 ∷ 255 ∷ 2 ∷ 0 ∷ 0 ∷ 0 ∷ 0 ∷ 1 ∷ 8 ∷ 6 ∷ 1 ∷ 2 ∷ []) ∷ (3 ∷ []) ∷ []

abbrev last_frames : List (List ℕ)
last_frames = (2 ∷ 0 ∷ 0 ∷ 0 ∷ 0 ∷ 1 ∷ 2 ∷ 0 ∷ 0 ∷ 0 ∷ 0 ∷ 2 ∷ 8 ∷ 0 ∷ []) ∷ []

abbrev register : List (List ℕ) → Bool × List (List ℕ)
register s = (true, s)

abbrev arrives : List (List ℕ) → List (List ℕ) → List (List ℕ)
arrives fs s = s ++ fs

event_handler_lem_example :
    (s' : List (List ℕ)) × (out' : List ℕ) × (is : List Inbound) × Delivers
      (first_frames ++ last_frames)
      is
    × (event_handler receive inject 16 register
          (λ s. s)
          3
          (arrives first_frames ∷ arrives last_frames ∷ [])
          []
          []
        ≡ ok (s', inject_all inject [] is, out'))
    × (s' ≡ [])
event_handler_lem_example =
    event_handler_lem receive-IsQueue inject 16 (λ s. s) 3 register [] [] refl refl
      (woken (arrives first_frames) first_frames (λ s. refl)
        (omega arith, omega arith, (omega arith, omega arith, tt)) (omega arith)
        (woken (arrives last_frames) last_frames (λ s. refl) (omega arith, omega arith, tt)
          (omega arith) no_more))

abbrev arp_request : Outbound
arp_request = record {
  protocol = 2054;
  remote = 255 ∷ 255 ∷ 255 ∷ 255 ∷ 255 ∷ 255 ∷ [];
  slices = (0 ∷ 1 ∷ []) ∷ (8 ∷ []) ∷ [];
}

abbrev own_mac : List ℕ
own_mac = 2 ∷ 0 ∷ 0 ∷ 0 ∷ 0 ∷ 1 ∷ []

abbrev link : List Outbound → Option Outbound × List Outbound
link [] = (none, [])
link (p ∷ ps) = (some p, ps)

abbrev wire : List (List ℕ) → List ℕ → List (List ℕ)
wire s b = s ++ (b ∷ [])

abbrev full_buffer : List ℕ
full_buffer = 0 ∷ 0 ∷ 0 ∷ 0 ∷ 0 ∷ 0 ∷ 0 ∷ 0 ∷ 0 ∷ 0 ∷ 0 ∷ 0 ∷ 0 ∷ 0 ∷ 0 ∷ 0 ∷ 0 ∷ 0 ∷ []

fits : length (tx own_mac (some arp_request)) ≤ 18
unfolding tx put_uint16 concat
fits = omega arith

write_notify-drain_example :
    (s' : List (List ℕ)) × (out' : List ℕ) × (drain receive inject 18 2
        (write_notify link wire own_mac [] (arp_request ∷ [])).0
        []
        full_buffer
      ≡ ok (
        s',
        record {
          protocol = 2054;
          link_header = arp_request.remote ++ (own_mac ++ put_uint16 2054);
          payload = concat arp_request.slices;
        }
            ∷ [],
        out',
      ))
    × (s' ≡ [])
write_notify-drain_example =
    write_notify-drain receive-IsQueue inject 18 link wire own_mac arp_request 2 []
      (arp_request ∷ []) [] full_buffer (λ s b. refl) refl refl refl refl (omega arith) fits refl
      (omega arith)
