-- ===== src/Entries/SimHash/Distance.antt =====
-- The distance of similarity hashes is a number of bits.
use sniffdogsniff.Shared.{
  ℕ, zero, suc, ◌+◌, ◌-◌, ◌*◌, ◌/◌, ◌%◌, ◌^◌, ◌≤◌, ◌<◌, ◌≡◌, refl, sym, ap, ap₂, ◌∙◌, ◌↔◌, bit_and,
  Bool, true, List, [], ◌∷◌, replicate, length, All, arith, ◌==◌, Bool-cases, inl, inr, all_below,
  all_below_sound, ==_iff,
}
use native.Mathlib.Nat.{pow-suc}
use sniffdogsniff.Kad.Id.{KadId, IsKadId, IsByte, operator_minus, value}
use sniffdogsniff.Kad.Id.Value.{value-injective, operator_minus-IsKadId}
use sniffdogsniff.Kad.Id.Metric.{distance_metric}
use sniffdogsniff.Entries.SimHash.{SimHash, clear_bits, hamming_from, distance}

-- How many of the `k` lowest binary digits are 1.
unfoldable pub ones : ℕ → ℕ → ℕ
ones zero n = 0
ones (suc k) n = n % 2 + ones k (n / 2)

unfoldable pub total_ones : List ℕ → ℕ
total_ones [] = 0
total_ones (b ∷ bs) = ones 8 b + total_ones bs

clear_bits_from : (fuel n h : ℕ) → clear_bits fuel n h ≡ clear_bits fuel n 0 + h
unfolding clear_bits
clear_bits_from zero n h = omega arith
clear_bits_from (suc fuel) n h = elim (Bool-cases (n == 0)) [
  | inl e ↦ rw e (omega arith)
  | inr e ↦ rw e (
      omega (
        arith,
        clear_bits_from fuel (bit_and n (n - 1)) (h + 1),
        clear_bits_from fuel (bit_and n (n - 1)) (0 + 1),
      ))
]

counts : ℕ → Bool
counts n = clear_bits 8 n 0 == ones 8 n

counts_table : all_below 256 counts ≡ true
unfolding all_below counts clear_bits ones
counts_table = refl

clear_bits-ones : (n h : ℕ) → IsByte n → clear_bits 8 n h ≡ ones 8 n + h
unfolding counts
clear_bits-ones n h lt =
    let e : clear_bits 8 n 0 ≡ ones 8 n =
      (==_iff (clear_bits 8 n 0) (ones 8 n)).0 (all_below_sound 256 counts n counts_table lt) in
    omega (arith, e, clear_bits_from 8 n h)

hamming_from_ones : (bs : List ℕ) (h : ℕ) → All IsByte bs → hamming_from bs h ≡ total_ones bs + h
unfolding hamming_from total_ones
hamming_from_ones [] h a = omega arith
hamming_from_ones (b ∷ bs) h (lt, a) =
    omega (arith, hamming_from_ones bs (clear_bits 8 b h) a, clear_bits-ones b h lt)

-- The loops of `distance` count the bits in which two hashes of 16 bytes differ.
pub distance-ones :
    (a b : SimHash)
    → IsKadId a.id
    → IsKadId b.id
    → distance a b ≡ total_ones (operator_minus a.id b.id).id
unfolding distance
distance-ones a b h k = omega (
  arith,
  hamming_from_ones (operator_minus a.id b.id).id 0 (operator_minus-IsKadId a.id b.id h k).bytes,
)

ones_bound : (k n : ℕ) → ones k n ≤ k
unfolding ones
ones_bound zero n = omega arith
ones_bound (suc k) n = omega (arith, ones_bound k (n / 2))

total_ones_bound : (bs : List ℕ) → total_ones bs ≤ 8 * length bs
unfolding total_ones
total_ones_bound [] = omega arith
total_ones_bound (b ∷ bs) = omega (arith, total_ones_bound bs, ones_bound 8 b)

ones_zero : (k n : ℕ) → n < 2 ^ k → ones k n ≡ 0 → n ≡ 0
unfolding ones
ones_zero zero n lt e = omega arith
ones_zero (suc k) n lt e =
    let e' : ones k (n / 2) ≡ 0 = omega arith in
    let half : n / 2 ≡ 0 = ones_zero k (n / 2) (omega (arith, pow-suc 2 k)) e' in
    omega (arith, half)

zeros : (bs : List ℕ) → All IsByte bs → total_ones bs ≡ 0 → bs ≡ replicate (length bs) 0
unfolding total_ones
zeros [] a e = refl
zeros (b ∷ bs) (lt, a) e = ap₂ ◌∷◌ (ones_zero 8 b lt (omega arith)) (zeros bs a (omega arith))

abbrev zero_id : KadId
zero_id = record { id = replicate 16 0 }

zero_id-IsKadId : IsKadId zero_id
zero_id-IsKadId = record { size = refl; bytes = ground arith }

zero_id-value : value zero_id ≡ 0
unfolding value
zero_id-value = refl

no_bits : hamming_from (replicate 16 0) 0 ≡ 0
unfolding hamming_from clear_bits
no_bits = refl

-- The distance of two hashes of 16 bytes is symmetric, at most 128, and 0 for equal hashes only.
pub distance_lem :
    (a b : SimHash)
    → IsKadId a.id
    → IsKadId b.id
    → (distance a b ≡ distance b a) × (distance a b ≤ 128) × ((distance a b ≡ 0) ↔ (a.id ≡ b.id))
unfolding distance
distance_lem a b h k = (
  ap (λ (x : KadId). hamming_from x.id 0) (distance_metric a.id b.id a.id h k h).1,
  omega (arith, distance-ones a b h k, total_ones_bound (operator_minus a.id b.id).id, minus.size),
  (
    λ e. (distance_metric a.id b.id a.id h k h).0.0 (ap value (apart e) ∙ zero_id-value),
    λ e.
        ap (λ (x : KadId). hamming_from x.id 0)
          (value-injective (operator_minus a.id b.id) zero_id minus zero_id-IsKadId
            ((distance_metric a.id b.id a.id h k h).0.1 e ∙ sym zero_id-value))
        ∙ none_set,
  ),
)
  where
    minus : IsKadId (operator_minus a.id b.id)
    minus = operator_minus-IsKadId a.id b.id h k

    none_set : hamming_from (replicate 16 0) 0 ≡ 0
    none_set = no_bits

    apart : distance a b ≡ 0 → operator_minus a.id b.id ≡ zero_id
    apart e = λ i. record {
      id =
          (zeros (operator_minus a.id b.id).id minus.bytes (sym (distance-ones a b h k) ∙ e)
              ∙ ap (λ (n : ℕ). replicate n 0) minus.size)
            i;
    }
