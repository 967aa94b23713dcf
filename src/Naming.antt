-- ===== src/Naming.antt =====
-- trusted_applet/net.go and trusted_applet/main.go: the MAC address and the host name.
pub mod Octets
pub mod Clean
use armored_witness_applet.Prelude.{
  ℕ, zero, suc, ◌+◌, ◌*◌, ◌/◌, ◌%◌, Bool, ◌&&◌, ◌||◌, List, [], ◌∷◌, ◌++◌, map, ltb, leb, ◌==◌,
  if◌then◌else◌, Text, codes,
}
use armored_witness_applet.Result.{Result, ok, panic}

-- `r >= 'a' && r <= 'z', …`
unfoldable pub allowed : ℕ → Bool
allowed r =
    (leb b'a' r && leb r b'z')
    || ((leb b'A' r && leb r b'Z') || ((leb b'0' r && leb r b'9') || (r == b'-')))

unfoldable pub clean_for_dns : Text → Text
clean_for_dns s = map (λ r. if allowed r then r else b'-') s

-- `&` and `|` on the lowest bits of two numbers, as many as the first argument says.
unfoldable pub bit_and : ℕ → ℕ → ℕ → ℕ
bit_and zero a b = 0
bit_and (suc bits) a b = a % 2 * (b % 2) + 2 * bit_and bits (a / 2) (b / 2)

unfoldable pub bit_or : ℕ → ℕ → ℕ → ℕ
bit_or zero a b = 0
bit_or (suc bits) a b = (a % 2 + b % 2 + 1) / 2 + 2 * bit_or bits (a / 2) (b / 2)

-- `m[0] &= 0xfe` and `m[0] |= 0x02`
unfoldable pub flagged : ℕ → ℕ
flagged m = bit_or 8 (bit_and 8 m 254) 2

-- the verb `%02x`, of a byte
unfoldable pub hex_digit : ℕ → ℕ
hex_digit d = if ltb d 10 then b'0' + d else 87 + d

unfoldable pub hex_byte : ℕ → Text
hex_byte b = hex_digit (b / 16) ∷ hex_digit (b % 16) ∷ []

unfoldable pub mac_text : ℕ → ℕ → ℕ → ℕ → ℕ → ℕ → Text
mac_text a b c d e f =
    hex_byte a
    ++ (b':'
        ∷ (hex_byte b
            ++ (b':'
                ∷ (hex_byte c
                    ++ (b':' ∷ (hex_byte d ++ (b':' ∷ (hex_byte e ++ (b':' ∷ hex_byte f)))))))))

-- `mac`, with the hash SHA-256 of the standard library. The index panics where it is short.
unfoldable pub mac : (List ℕ → List ℕ) → Text → Result Text
mac sha256 serial = elim (sha256 (codes "MAC:" ++ serial)) as (λ _. Result Text) [
  | a ∷ b ∷ c ∷ d ∷ e ∷ f ∷ _ ↦ ok (mac_text (flagged a) b c d e f)
  | _ ↦ panic
]
