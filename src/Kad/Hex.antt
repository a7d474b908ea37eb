-- ===== src/Kad/Hex.antt =====
-- net/netutil.c, the hexadecimal text of bytes, and what kademlia/kadnode.cpp makes of it. A text is
-- the list of its characters, without the terminating 0.
pub mod RoundTrip
use sniffdogsniff.Shared.{
  ℕ, zero, suc, ◌+◌, ◌-◌, ◌*◌, ◌/◌, ◌%◌, Bool, true, false, ◌&&◌, List, [], ◌∷◌, ◌++◌, length,
}
use sniffdogsniff.Shared.{ltb, leb, ◌==◌, if◌then◌else◌}
use sniffdogsniff.Kad.Id.{KadId, kad_id_length}

unfoldable pub hex_digit : ℕ → ℕ
hex_digit d = if ltb 9 d then 65 + (d - 10) else 48 + d

unfoldable pub bytes_to_hex_string : List ℕ → List ℕ
bytes_to_hex_string [] = []
bytes_to_hex_string (b ∷ bs) = hex_digit (b / 16 % 16) ∷ hex_digit (b % 16) ∷ bytes_to_hex_string bs

-- Another character keeps its code.
unfoldable pub hex_value : ℕ → ℕ
hex_value c =
    if leb 48 c && leb c 57 then c - 48 else if leb 65 c && leb c 70 then c - 65 + 10 else c

-- A last character without a second one is followed by the terminating 0, which is read as the second.
unfoldable pub hex_string_to_bytes : List ℕ → List ℕ
hex_string_to_bytes [] = []
hex_string_to_bytes (hi ∷ []) = (hex_value hi % 16 * 16 + hex_value 0 % 16) ∷ []
hex_string_to_bytes (hi ∷ lo ∷ s) =
    (hex_value hi % 16 * 16 + hex_value lo % 16) ∷ hex_string_to_bytes s

-- `overrun`: more bytes are written than the array of the identifier has; `thrown`: the exception.
pub data Converted : Type 0 where
  converted : KadId → Converted
  thrown : Converted
  overrun : Converted

unfoldable pub from_hex_string : List ℕ → Converted
from_hex_string s =
    let bytes = hex_string_to_bytes s in
    if ltb kad_id_length (length bytes)
    then overrun
    else if length bytes == 16
    then converted (record { id = bytes })
    else thrown

-- `operator<<` of an identifier.
unfoldable pub print_id : KadId → List ℕ
print_id x = bytes_to_hex_string x.id
