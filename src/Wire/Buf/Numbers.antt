-- ===== src/Wire/Buf/Numbers.antt =====
-- The fixed-width numbers of SdsBytesBuf, lowest byte first.
use sniffdogsniff.Shared.{ℕ, zero, suc, ◌/◌, ◌^◌, ◌<◌, ◌≡◌, refl, ap, arith}
use sniffdogsniff.Shared.{length}
use native.Mathlib.Nat.{pow-succ'}
use sniffdogsniff.Wire.Buf.{
  ◌>>=◌, pure, read, number, le_bytes, le_value, write_uint8, read_uint8, write_uint16, read_uint16,
  write_uint32, read_uint32, write_uint64, read_uint64,
}
use sniffdogsniff.Wire.Buf.Views.{Writes, Reads, read-Reads, write-Writes}

pub length-le_bytes : (k n : ℕ) → length (le_bytes k n) ≡ k
unfolding le_bytes
length-le_bytes zero n = refl
length-le_bytes (suc k) n = ap suc (length-le_bytes k (n / 256))

-- The bytes of a number that has room in them give it back.
pub le_value-le_bytes : (k n : ℕ) → n < 256 ^ k → le_value (le_bytes k n) ≡ n
unfolding le_bytes le_value
le_value-le_bytes zero n lt = omega arith
le_value-le_bytes (suc k) n lt =
    let less : n / 256 < 256 ^ k = omega (arith, pow-succ' 256 k) in
    let e : le_value (le_bytes k (n / 256)) ≡ n / 256 = le_value-le_bytes k (n / 256) less in
    omega (arith, e)

-- A number that is read back.
number-Reads : (k n : ℕ) → n < 256 ^ k → Reads (read k >>= λ bs. pure (number bs)) (le_bytes k n) n
number-Reads k n lt b rest r =
    let (b', e, r') = read-Reads k (le_bytes k n) (length-le_bytes k n) b rest r in
    (b', rw (e, ◌>>=◌, le_value-le_bytes k n lt), r')

pub write_uint8-Writes : (n : ℕ) → Writes (write_uint8 n) (le_bytes 1 n)
unfolding write_uint8
write_uint8-Writes n = write-Writes (le_bytes 1 n) (omega (arith, length-le_bytes 1 n))

pub write_uint16-Writes : (n : ℕ) → Writes (write_uint16 n) (le_bytes 2 n)
unfolding write_uint16
write_uint16-Writes n = write-Writes (le_bytes 2 n) (omega (arith, length-le_bytes 2 n))

pub write_uint32-Writes : (n : ℕ) → Writes (write_uint32 n) (le_bytes 4 n)
unfolding write_uint32
write_uint32-Writes n = write-Writes (le_bytes 4 n) (omega (arith, length-le_bytes 4 n))

pub write_uint64-Writes : (n : ℕ) → Writes (write_uint64 n) (le_bytes 8 n)
unfolding write_uint64
write_uint64-Writes n = write-Writes (le_bytes 8 n) (omega (arith, length-le_bytes 8 n))

pub read_uint8-Reads : (n : ℕ) → n < 2 ^ 8 → Reads read_uint8 (le_bytes 1 n) n
unfolding read_uint8
read_uint8-Reads n lt = number-Reads 1 n lt

pub read_uint16-Reads : (n : ℕ) → n < 2 ^ 16 → Reads read_uint16 (le_bytes 2 n) n
unfolding read_uint16
read_uint16-Reads n lt = number-Reads 2 n lt

pub read_uint32-Reads : (n : ℕ) → n < 2 ^ 32 → Reads read_uint32 (le_bytes 4 n) n
unfolding read_uint32
read_uint32-Reads n lt = number-Reads 4 n lt

pub read_uint64-Reads : (n : ℕ) → n < 2 ^ 64 → Reads read_uint64 (le_bytes 8 n) n
unfolding read_uint64
read_uint64-Reads n lt = number-Reads 8 n lt
