-- ===== src/Wire/Buf.antt =====
-- common/sdsbytesbuf.h and sdsbytesbuf.cpp. A cell of the buffer is `none` until a byte is written to
-- it. Sizes are size_t; those of real buffers do not come near 2 ^ 64, so only the difference
-- `bufferSize - pos` and the doubling of the capacity are taken modulo 2 ^ 64.
pub mod Growth
pub mod Views
pub mod Strings
pub mod Numbers
pub mod Trips
use sniffdogsniff.Shared.{
  ℕ, zero, suc, ◌+◌, ◌-◌, ◌*◌, ◌/◌, ◌%◌, ◌^◌, Bool, true, false, Option, none, some,
}
use sniffdogsniff.Shared.{
  List, [], ◌∷◌, ◌++◌, map, length, take, drop, replicate, ltb, leb, ◌==◌, if◌then◌else◌,
}
use sniffdogsniff.Wire.Outcome.{Outcome, ok, fault, hang}

abbrev pub size_mod : ℕ
size_mod = 2 ^ 64

-- `buffer` is the pointer: `none` is nullptr, and a list has a cell for each allocated byte.
pub record Buf : Type 0 where
  pub buffer_size : ℕ
  pub capacity : ℕ
  pub pos : ℕ
  pub buffer : Option (List (Option ℕ))

-- A method: it changes the buffer and returns a value, or does not get that far.
abbrev pub M : Type 0 → Type 0
M A = Buf → Outcome (A × Buf)

infixl 5 ◌>>=◌ ◌>>◌
abbrev pub ◌>>=◌ : {A B : Type 0} → M A → (A → M B) → M B
◌>>=◌ m f b = elim (m b) [ ok (a, b') ↦ f a b' | fault ↦ fault | hang ↦ hang ]

abbrev pub ◌>>◌ : {B : Type 0} → M (Unit {0}) → M B → M B
m >> k = m >>= λ _. k

abbrev pub pure : {A : Type 0} → A → M A
pure a b = ok (a, b)

abbrev pub cells : Option (List (Option ℕ)) → List (Option ℕ)
cells none = []
cells (some cs) = cs

unfoldable pub new_buf : Buf
new_buf = record { buffer_size = 0; capacity = 0; pos = 0; buffer = none }

-- `malloc` succeeds.
unfoldable pub allocate : ℕ → Buf → Buf
allocate size b = record b { capacity = size; buffer = some (replicate size none) }

-- `while (capacity < size) capacity *= 2;`. After 64 rounds the product is 0 and stays 0: `none`.
unfoldable pub grow : ℕ → ℕ → ℕ → Option ℕ
grow zero capacity size = if ltb capacity size then none else some capacity
grow (suc fuel) capacity size =
    let rest = grow fuel (capacity * 2 % size_mod) size in
    if ltb capacity size then rest else some capacity

unfoldable pub resize : ℕ → Buf → Outcome Buf
resize size b = elim b.buffer [
  | none ↦ ok (allocate size b)
  | some cs ↦
      if ltb b.capacity size
      then elim (grow 64 b.capacity size) [
        | none ↦ hang
        | some c ↦
            ok (record b { capacity = c; buffer = some (cs ++ replicate (c - length cs) none) })
      ]
      else ok b
]

-- The buffer is freed; `capacity` keeps its value.
unfoldable pub zero_buf : Buf → Buf
zero_buf b = elim b.buffer [
  | none ↦ b
  | some cs ↦ record b { pos = 0; buffer_size = 0; buffer = none }
]

unfoldable pub rewind : Buf → Buf
rewind b = record b { pos = 0 }

unfoldable pub size : Buf → ℕ
size b = b.buffer_size

-- `memcpy` to the cells from `at` on; outside the allocation it is a fault.
unfoldable pub store : ℕ → List ℕ → List (Option ℕ) → Option (List (Option ℕ))
store at bs cs =
    if leb (at + length bs) (length cs)
    then some (take at cs ++ (map some bs ++ drop (at + length bs) cs))
    else none

-- `memcpy(cur(), in, size)` and the update of the sizes, when the buffer has been resized.
unfoldable pub write_at : List ℕ → M (Unit {0})
write_at bs r = elim (store r.pos bs (cells r.buffer)) [
  | none ↦ fault
  | some cs ↦ ok (
    tt,
    record r { pos = r.pos + length bs; buffer_size = r.buffer_size + length bs; buffer = some cs },
  )
]

unfoldable pub write : List ℕ → M (Unit {0})
write bs b = elim (resize (b.buffer_size + length bs) b) [
  | ok r ↦ write_at bs r
  | fault ↦ fault
  | hang ↦ hang
]

-- `memcpy` from the first `n` cells.
unfoldable pub fetch : ℕ → List (Option ℕ) → Option (List ℕ)
fetch zero cs = some []
fetch (suc n) [] = none
fetch (suc n) (none ∷ cs) = none
fetch (suc n) (some c ∷ cs) = elim (fetch n cs) [ none ↦ none | some bs ↦ some (c ∷ bs) ]

-- `bufferSize - pos` in size_t.
abbrev pub available : Buf → ℕ
available b = (b.buffer_size + size_mod - b.pos) % size_mod

-- `none` means that 0 is returned and the destination keeps its value.
unfoldable pub read : ℕ → M (Option (List ℕ))
read n b =
    if leb n (available b)
    then (elim (fetch n (drop b.pos (cells b.buffer))) [
      | none ↦ fault
      | some bs ↦ ok (some bs, record b { pos = b.pos + n })
    ])
    else ok (none, b)

-- The constructor of a pointer and a size.
unfoldable pub from_bytes : List ℕ → Outcome Buf
from_bytes bs = elim (write bs new_buf) [ ok (_, b) ↦ ok b | fault ↦ fault | hang ↦ hang ]

-- The source pointer of `writeBytes` is not null.
unfoldable pub write_bytes : List ℕ → M (Unit {0})
write_bytes bs = if 0 == length bs then pure tt else write bs

-- The destination of `readBytes` is not null.
unfoldable pub read_bytes : ℕ → M (Option (List ℕ))
read_bytes n = if 0 == n then pure none else read n

unfoldable pub write_string : List ℕ → M (Unit {0})
write_string s = write (s ++ (0 ∷ []))

-- `while (len < bufferSize - pos) { len++; if (cursor[len] == 0) break; }`, over the cells behind
-- `cursor[len]`; `left` is how often the condition still holds.
unfoldable pub scan : ℕ → ℕ → List (Option ℕ) → Option ℕ
scan zero len cs = some len
scan (suc left) len [] = none
scan (suc left) len (none ∷ cs) = none
scan (suc left) len (some c ∷ cs) = if c == 0 then some (suc len) else scan left (suc len) cs

unfoldable pub read_string : M (List ℕ)
read_string b = elim (scan (available b) 0 (drop (b.pos + 1) (cells b.buffer))) [
  | none ↦ fault
  | some len ↦ elim (fetch len (drop b.pos (cells b.buffer))) [
    | none ↦ fault
    | some bs ↦ ok (bs, record b { pos = b.pos + len + 1 })
  ]
]

-- `htole16` and its kin: the `k` bytes of a number, the lowest first, whatever the machine.
unfoldable pub le_bytes : ℕ → ℕ → List ℕ
le_bytes zero n = []
le_bytes (suc k) n = (n % 256) ∷ le_bytes k (n / 256)

unfoldable pub le_value : List ℕ → ℕ
le_value [] = 0
le_value (b ∷ bs) = b + 256 * le_value bs

-- A number that was not read is 0.
abbrev pub number : Option (List ℕ) → ℕ
number none = 0
number (some bs) = le_value bs

unfoldable pub write_uint8 : ℕ → M (Unit {0})
write_uint8 n = write (le_bytes 1 n)

unfoldable pub read_uint8 : M ℕ
read_uint8 = do bs ← read 1; pure (number bs)

unfoldable pub write_uint16 : ℕ → M (Unit {0})
write_uint16 n = write (le_bytes 2 n)

unfoldable pub read_uint16 : M ℕ
read_uint16 = do bs ← read 2; pure (number bs)

unfoldable pub write_uint32 : ℕ → M (Unit {0})
write_uint32 n = write (le_bytes 4 n)

unfoldable pub read_uint32 : M ℕ
read_uint32 = do bs ← read 4; pure (number bs)

unfoldable pub write_uint64 : ℕ → M (Unit {0})
write_uint64 n = write (le_bytes 8 n)

unfoldable pub read_uint64 : M ℕ
read_uint64 = do bs ← read 8; pure (number bs)

unfoldable pub write_bool : Bool → M (Unit {0})
write_bool b = write_uint8 (if b then 1 else 0)

unfoldable pub read_bool : M Bool
read_bool = do n ← read_uint8; pure (n == 1)
