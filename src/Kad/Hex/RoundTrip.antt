-- ===== src/Kad/Hex/RoundTrip.antt =====
-- An identifier is read from its hexadecimal text.
use sniffdogsniff.Shared.{
  ℕ, ◌*◌, ◌/◌, ◌%◌, ◌≤◌, ◌<◌, ◌≡◌, refl, ap₂, Bool, true, false, List, [], ◌∷◌, length, All, arith,
  ltb, ◌==◌, all_below, all_below_sound, ==_iff,
}
use sniffdogsniff.Kad.Id.{KadId, IsKadId, IsByte, kad_id_length}
use sniffdogsniff.Kad.Hex.{
  hex_digit, hex_value, bytes_to_hex_string, hex_string_to_bytes, converted, overrun,
  from_hex_string, print_id,
}

digit_back : ℕ → Bool
digit_back d = hex_value (hex_digit d) == d

digits_table : all_below 16 digit_back ≡ true
unfolding all_below digit_back hex_value hex_digit
digits_table = refl

hex_value-hex_digit : (d : ℕ) → d < 16 → hex_value (hex_digit d) ≡ d
unfolding digit_back
hex_value-hex_digit d lt =
    (==_iff (hex_value (hex_digit d)) d).0 (all_below_sound 16 digit_back d digits_table lt)

hex_string_to_bytes-bytes :
    (bs : List ℕ) → All IsByte bs → hex_string_to_bytes (bytes_to_hex_string bs) ≡ bs
unfolding hex_string_to_bytes bytes_to_hex_string
hex_string_to_bytes-bytes [] h = refl
hex_string_to_bytes-bytes (b ∷ bs) (lt, h) =
    ap₂ ◌∷◌
      (omega (
        arith,
        hex_value-hex_digit (b / 16 % 16) (omega arith),
        hex_value-hex_digit (b % 16) (omega arith),
      ))
      (hex_string_to_bytes-bytes bs h)

-- The text of an identifier of 16 bytes gives the identifier back.
pub from_hex_string-print_id : (x : KadId) → IsKadId x → from_hex_string (print_id x) ≡ converted x
unfolding from_hex_string print_id
from_hex_string-print_id x h =
    let back = hex_string_to_bytes-bytes x.id h.bytes in
    let small : ltb kad_id_length (length x.id) ≡ false = ground (arith, h.size) in
    let exact : (length x.id == 16) ≡ true = ground (arith, h.size) in rw (back, small, exact) refl

-- A text of more than 32 characters is written past the end of the identifier.
length-hex_string_to_bytes : (s : List ℕ) → length s ≤ 2 * length (hex_string_to_bytes s)
unfolding hex_string_to_bytes
length-hex_string_to_bytes [] = omega arith
length-hex_string_to_bytes (hi ∷ []) = omega arith
length-hex_string_to_bytes (hi ∷ lo ∷ s) = omega (arith, length-hex_string_to_bytes s)

-- Of a text of more than 32 characters, `fromHexString` writes past the end of the identifier.
pub from_hex_string_long : (s : List ℕ) → 32 < length s → from_hex_string s ≡ overrun
unfolding from_hex_string
from_hex_string_long s lt =
    let long : ltb kad_id_length (length (hex_string_to_bytes s)) ≡ true =
      ground (arith, length-hex_string_to_bytes s) in
    rw long refl
