-- ===== src/Naming/Octets.antt =====
-- trusted_applet/net.go: mac.
use armored_witness_applet.Prelude.{
  ℕ, ◌+◌, ◌*◌, ◌-◌, ◌/◌, ◌%◌, ◌<◌, ◌≡◌, refl, ap, ◌∙◌, List, length, [], ◌∷◌, ◌++◌, Text, ltb,
  arith, if◌then◌else◌, codes,
}
use armored_witness_applet.Result.{ok}
use armored_witness_applet.Naming.{flagged, bit_and, bit_or, hex_digit, hex_byte, mac_text, mac}

bit_and_127 : (a : ℕ) → a < 128 → bit_and 7 a 127 ≡ a
unfolding bit_and
bit_and_127 a h = omega arith

bit_or_0 : (a : ℕ) → a < 64 → bit_or 6 a 0 ≡ a
unfolding bit_or
bit_or_0 a h = omega arith

flagged-≡ : (m : ℕ) → m < 256 → flagged m ≡ m / 4 * 4 + 2
unfolding flagged
flagged-≡ m h =
    let cleared : bit_and 8 m 254 ≡ m / 2 * 2 =
      unfold bit_and in omega (arith, bit_and_127 (m / 2) (omega arith)) in
    omega (arith, ap (λ a. bit_or 8 a 2) cleared ∙ set (m / 2) (omega arith))
  where
    set : (h : ℕ) → h < 128 → bit_or 8 (h * 2) 2 ≡ h / 2 * 4 + 2
    set h lt = unfold bit_or in omega (arith, bit_or_0 (h * 2 / 2 / 2) (omega arith))

-- The octets of a text that has them in hexadecimal, with a character between two of them.
unfoldable pub value : ℕ → ℕ
value c = if ltb c 58 then c - b'0' else c - 87

unfoldable pub octets : Text → List ℕ
octets (a ∷ b ∷ sep ∷ s) = (value a * 16 + value b) ∷ octets s
octets (a ∷ b ∷ []) = (value a * 16 + value b) ∷ []
octets (a ∷ []) = []
octets [] = []

hex_digit-value : (d : ℕ) → d < 16 → value (hex_digit d) ≡ d
unfolding value hex_digit
hex_digit-value d h = ground arith

hex_byte-value :
    (b : ℕ) → b < 256 → value (hex_digit (b / 16)) * 16 + value (hex_digit (b % 16)) ≡ b
hex_byte-value b h =
    omega (arith, hex_digit-value (b / 16) (omega arith), hex_digit-value (b % 16) (omega arith))

octets-mac_text :
    (a b c d e f : ℕ)
    → a < 256
    → b < 256
    → c < 256
    → d < 256
    → e < 256
    → f < 256
    → octets (mac_text a b c d e f) ≡ a ∷ b ∷ c ∷ d ∷ e ∷ f ∷ []
unfolding octets mac_text hex_byte
octets-mac_text a b c d e f ha hb hc hd he hf =
    rw
      (
        hex_byte-value a ha,
        hex_byte-value b hb,
        hex_byte-value c hc,
        hex_byte-value d hd,
        hex_byte-value e he,
        hex_byte-value f hf,
      )
      refl

-- The bytes of a list are bytes.
abbrev pub AreBytes : List ℕ → Type 0
AreBytes [] = Unit
AreBytes (b ∷ bs) = (b < 256) × AreBytes bs

-- The MAC address is a text of 17 characters. Its octets are the first six bytes of the hash of
-- the serial number behind a prefix, but for the flags in the first: it is unicast, and locally
-- administered. The hash is of six or more bytes.
pub mac_lem :
    (sha256 : List ℕ → List ℕ) (serial : Text) (a b c d e f : ℕ) (rest : List ℕ)
    → sha256 (codes "MAC:" ++ serial) ≡ a ∷ b ∷ c ∷ d ∷ e ∷ f ∷ rest
    → AreBytes (a ∷ b ∷ c ∷ d ∷ e ∷ f ∷ [])
    → (text : Text) × (m : ℕ) × (mac sha256 serial ≡ ok text)
      × (length text ≡ 17)
      × (octets text ≡ m ∷ b ∷ c ∷ d ∷ e ∷ f ∷ [])
      × (m % 2 ≡ 0)
      × (m / 2 % 2 ≡ 1)
      × (m / 4 ≡ a / 4)
unfolding mac
mac_lem sha256 serial a b c d e f rest hash (ha, (hb, (hc, (hd, (he, (hf, _)))))) =
    let flags = flagged-≡ a ha in
    (
      mac_text (flagged a) b c d e f,
      flagged a,
      rw (hash, mac) refl,
      unfold mac_text hex_byte in refl,
      octets-mac_text (flagged a) b c d e f (omega arith) hb hc hd he hf,
      omega arith,
      omega arith,
      omega arith,
    )
