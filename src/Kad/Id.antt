-- ===== src/Kad/Id.antt =====
-- kademlia/kadnode.h and kadnode.cpp, struct KadId. An identifier is 16 bytes, least significant
-- first. `none` stands for a read of `id[-1]`, which is outside the array.
pub mod Value
pub mod Height
pub mod Metric
use sniffdogsniff.Shared.{ℕ, zero, suc, ◌+◌, ◌-◌, ◌*◌, ◌/◌, ◌%◌, ◌^◌, ◌≤◌, ◌<◌, ◌≡◌}
use sniffdogsniff.Shared.{bit_and, bit_xor, Bool, true, false, ◌&&◌, Option, none, some, arith}
use sniffdogsniff.Shared.{List, [], ◌∷◌, ◌++◌, reverse, length, All, replicate}
use sniffdogsniff.Shared.{ltb, ◌==◌, if◌then◌else◌}
use sniffdogsniff.Shared.Optional.{◌>>=◌}

abbrev pub kad_id_length : ℕ
kad_id_length = 16

abbrev pub kad_id_bit_length : ℕ
kad_id_bit_length = kad_id_length * 8

pub record KadId : Type 0 where
  pub id : List ℕ

abbrev pub IsByte : ℕ → Type 0
IsByte b = b < 256

-- The array has its fixed size, and its cells are unsigned char.
pub record IsKadId (x : KadId) : Type 0 where
  pub size : length x.id ≡ kad_id_length
  pub bytes : All IsByte x.id

xor_bytes : List ℕ → List ℕ → List ℕ
xor_bytes [] bs = []
xor_bytes (a ∷ as') [] = []
xor_bytes (a ∷ as') (b ∷ bs) = bit_xor a b ∷ xor_bytes as' bs

-- `operator-`: the bytewise exclusive or.
unfoldable pub operator_minus : KadId → KadId → KadId
unfolding xor_bytes
operator_minus x y = record { id = xor_bytes x.id y.id }

-- Both arrays have 16 bytes; lists of different lengths never meet.
eq_bytes : List ℕ → List ℕ → Bool
eq_bytes [] [] = true
eq_bytes (a ∷ as') (b ∷ bs) = a == b && eq_bytes as' bs
eq_bytes as' bs = false

unfoldable pub operator_eq : KadId → KadId → Bool
unfolding eq_bytes
operator_eq x y = eq_bytes x.id y.id

-- `for (i = 15; i >= 0 && id[i] == 0; i--) d -= 8;`, then `n = id[i]`. The bytes come from the most
-- significant on; `d` is at least 7 whenever a byte is found.
skip_zeros : List ℕ → ℕ → Option (ℕ × ℕ)
skip_zeros [] d = none
skip_zeros (b ∷ bs) d = if b == 0 then skip_zeros bs (d - 8) else some (b, d)

-- `while ((n & 0x80) == 0) { n <<= 1; d--; }` on an unsigned char; `none` when the rounds run out.
top_bit : ℕ → ℕ → ℕ → Option ℕ
top_bit zero n d = none
top_bit (suc fuel) n d =
    let rest = top_bit fuel (n * 2 % 256) (d - 1) in if bit_and n 0x80 == 0 then rest else some d

-- A byte other than 0 needs seven rounds at most.
unfoldable pub height : KadId → Option ℕ
unfolding skip_zeros top_bit
height x = do (n, d) ← skip_zeros (reverse x.id) (kad_id_bit_length - 1); top_bit 8 n d

-- `while (i >= 0 && id[i] == id2.id[i]) i--; return id[i] < id2.id[i];`
lt_from : List ℕ → List ℕ → Option Bool
lt_from (a ∷ as') (b ∷ bs) = if a == b then lt_from as' bs else some (ltb a b)
lt_from as' bs = none

unfoldable pub operator_lt : KadId → KadId → Option Bool
unfolding lt_from
operator_lt x y = lt_from (reverse x.id) (reverse y.id)

-- The bytes of `ax`; `bdist` is at most 128.
far_mask : ℕ → List ℕ
far_mask bdist =
    let d_idx = kad_id_bit_length - bdist in
    let i = d_idx / 8 in
    replicate i 0
    ++ (if ltb i kad_id_length
        then (0xff * 2 ^ ((d_idx - i * 8) % 8) % 256) ∷ replicate (kad_id_length - (i + 1)) 0xff
        else [])

unfoldable pub id_nbits_far_from : KadId → ℕ → KadId
unfolding far_mask
id_nbits_far_from id1 bdist = operator_minus (record { id = far_mask bdist }) id1

-- The number that an identifier is read as, from its most significant byte on.
unfoldable pub be_value : List ℕ → ℕ
be_value [] = 0
be_value (b ∷ bs) = b * 2 ^ (8 * length bs) + be_value bs

unfoldable pub value : KadId → ℕ
unfolding be_value
value x = be_value (reverse x.id)
