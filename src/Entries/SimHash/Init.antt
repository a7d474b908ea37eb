-- ===== src/Entries/SimHash/Init.antt =====
-- sds_core/simhash.cpp: the hash of a token and the weights of a text. A token is the list of its
-- bytes, none of which is 0. uint64_t wraps around at 2 ^ 64. `char` is signed, and kept as its byte.
pub mod Weights
use sniffdogsniff.Shared.{
  ℕ, zero, suc, ◌+◌, ◌-◌, ◌*◌, ◌/◌, ◌%◌, ◌^◌, bit_and, bit_or, bit_xor, Bool, true, false, ◌&&◌,
  Option, none, some, List, [], ◌∷◌, ◌++◌, length, get_or, replicate,
}
use sniffdogsniff.Shared.{ltb, ◌==◌, if◌then◌else◌}
use sniffdogsniff.Shared.Optional.{◌>>=◌}
use sniffdogsniff.Shared.Bytes.{bytes_eq}
use sniffdogsniff.Kad.Id.{KadId}
use sniffdogsniff.Wire.Buf.{le_bytes}
use sniffdogsniff.Text.{tokenize}

-- The array `temp`.
pub record Fnv : Type 0 where
  pub t0 : ℕ
  pub t1 : ℕ
  pub t2 : ℕ
  pub t3 : ℕ

abbrev pub fnv_basis : Fnv
fnv_basis = record { t0 = 0x6C62272E; t1 = 0x07BB0142; t2 = 0x62B82175; t3 = 0x6295C58D }

abbrev pub u64 : ℕ → ℕ
u64 n = n % 2 ^ 64

-- A character converted to uint64_t.
abbrev pub sign_extend : ℕ → ℕ
sign_extend c = if ltb c 128 then c else 2 ^ 64 - 256 + c

-- The body of the loop, where the character is read.
unfoldable pub fnv_step : ℕ → Fnv → Fnv
fnv_step c f =
    let shifted1 = u64 (f.t3 * 2 ^ 24) in
    let shifted0 = u64 (f.t2 * 2 ^ 24) in
    let a3 = u64 (0x13B * bit_xor f.t3 (sign_extend c)) in
    let a2 = u64 (u64 (f.t2 * 0x13B) + a3 / 2 ^ 32) in
    let a1 = u64 (u64 (f.t1 * 0x13B + shifted1) + a2 / 2 ^ 32) in
    let a0 = u64 (u64 (f.t0 * 0x13B + shifted0) + a1 / 2 ^ 32) in
    record { t0 = a0; t1 = a1 % 2 ^ 32; t2 = a2 % 2 ^ 32; t3 = a3 % 2 ^ 32 }

-- The condition of the loop reads one character and its body the next: behind a token of odd length the
-- condition reads past the terminating 0, `none`.
unfoldable pub fnv_loop : Fnv → List ℕ → Option Fnv
fnv_loop f [] = some f
fnv_loop f (c ∷ []) = none
fnv_loop f (c ∷ d ∷ s) = fnv_loop (fnv_step d f) s

unfoldable pub fnv128_string : List ℕ → Option (List ℕ)
fnv128_string s = do
  f ← fnv_loop fnv_basis s
  some (le_bytes 4 f.t0 ++ (le_bytes 4 f.t1 ++ (le_bytes 4 f.t2 ++ le_bytes 4 f.t3)))

pub record WordHash : Type 0 where
  pub weight : ℕ
  pub hash : List ℕ

-- The order of `std::string`.
unfoldable pub string_lt : List ℕ → List ℕ → Bool
string_lt s [] = false
string_lt [] (d ∷ t) = true
string_lt (c ∷ s) (d ∷ t) = if c == d then string_lt s t else ltb c d

-- One round of the first loop: a new token is hashed and gets the weight 1, and one that is there gains
-- 1. `hash` is what `fnv128String` makes of it.
unfoldable pub add_token : List ℕ → List ℕ → List (List ℕ × WordHash) → List (List ℕ × WordHash)
add_token token hash [] = (token, record { weight = 1; hash = hash }) ∷ []
add_token token hash ((t, w) ∷ m) =
    if bytes_eq t token
    then (t, record w { weight = w.weight + 1 }) ∷ m
    else if string_lt t token
    then (t, w) ∷ add_token token hash m
    else (token, record { weight = 1; hash = hash }) ∷ (t, w) ∷ m

-- The hash of each token is computed each time, with the same result.
unfoldable pub token_mults :
    List (List ℕ) → List (List ℕ × WordHash) → Option (List (List ℕ × WordHash))
token_mults [] m = some m
token_mults (t ∷ ts) m = do hash ← fnv128_string t; token_mults ts (add_token t hash m)

-- Bit `k` of a hash, the highest bit of each byte first.
unfoldable pub hash_bit : ℕ → List ℕ → Bool
hash_bit k hash = get_or hash (k / 8) 0 / 2 ^ (7 - k % 8) % 2 == 1

-- `simWeights[k]`, a signed char: what is added is the weight, or 256 less the weight.
unfoldable pub sim_weight : ℕ → List (List ℕ × WordHash) → ℕ → ℕ
sim_weight k [] acc = acc
sim_weight k ((t, w) ∷ m) acc =
    sim_weight k m ((acc + (if hash_bit k w.hash then w.weight else 255 * w.weight)) % 256)

-- `simWeights[k] > 0`.
unfoldable pub weight_bit : ℕ → List (List ℕ × WordHash) → ℕ
weight_bit k m = let w = sim_weight k m 0 in if ltb 0 w && ltb w 128 then 1 else 0

-- The bits from `k` on, `n` of them, as a number.
unfoldable pub id_byte : ℕ → ℕ → List (List ℕ × WordHash) → ℕ
id_byte zero k m = 0
id_byte (suc n) k m = weight_bit k m * 2 ^ n + id_byte n (suc k) m

unfoldable pub id_bytes : ℕ → ℕ → List (List ℕ × WordHash) → List ℕ
id_bytes zero i m = []
id_bytes (suc n) i m = id_byte 8 (8 * i) m ∷ id_bytes n (suc i) m

unfoldable pub init : List (List ℕ) → Option KadId
init tokens = do m ← token_mults tokens []; some (record { id = id_bytes 16 0 m })

-- The bytes of " \n\r" and ".:,;()[]{}#@".
abbrev pub delimiters : List ℕ
delimiters = 32 ∷ 10 ∷ 13 ∷ []

abbrev pub punctuation : List ℕ
punctuation = 46 ∷ 58 ∷ 44 ∷ 59 ∷ 40 ∷ 41 ∷ 91 ∷ 93 ∷ 123 ∷ 125 ∷ 35 ∷ 64 ∷ []

-- The constructor of a text.
unfoldable pub of_text : List ℕ → Option KadId
of_text str = do tokens ← tokenize str delimiters punctuation; init tokens
