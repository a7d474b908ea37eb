-- ===== src/Kad/Id/Height.antt =====
-- `KadId::height` is the position of the highest bit that is set, and `idNbitsFarFrom` flips the
-- highest bits.
use sniffdogsniff.Shared.{
  ℕ, zero, suc, ◌+◌, ◌-◌, ◌*◌, ◌%◌, ◌^◌, ◌≤◌, ◌<◌, ◌≡◌, refl, ap, sym, subst, ◌∙◌,
}
use sniffdogsniff.Shared.{bit_and, Bool, true, false, Option, none, some, arith, ◌↔◌, ◌⊎◌, inl, inr}
use sniffdogsniff.Shared.{List, [], ◌∷◌, reverse, length, All, All-reverse, ◌&&◌, ◌||◌}
use sniffdogsniff.Shared.{length-reverse, ltb, leb, ◌==◌, Bool-cases, all_below, all_below_sound}
use sniffdogsniff.Shared.Optional.{◌>>=◌}
use sniffdogsniff.Shared.Bits.{pow-add}
use sniffdogsniff.Kad.Id.{KadId, IsKadId, IsByte, skip_zeros, top_bit, height, be_value, value}
use sniffdogsniff.Kad.Id.Value.{be_value_lt}
use mathlib.Core.Option
use native.Mathlib.Nat.{add_assoc, one-le-pow, pow-le-pow_right}

-- Adding to the start value adds to the result: the loop only counts down.
top_bit-add :
    (f n c d : ℕ) → f ≤ suc d → top_bit f n (c + d) ≡ Option.map (λ k. c + k) (top_bit f n d)
unfolding top_bit
top_bit-add zero n c d h = refl
top_bit-add (suc zero) n c d h = elim (Bool-cases (bit_and n 0x80 == 0)) [
  | inl e ↦ rw e
  | inr e ↦ rw e
]
top_bit-add (suc (suc f)) n c d h =
    let e : c + d - 1 ≡ c + (d - 1) = omega arith in
    rw (e, top_bit-add (suc f) (n * 2 % 256) c (d - 1) (omega arith))
      (elim (Bool-cases (bit_and n 0x80 == 0)) [ inl e ↦ rw e | inr e ↦ rw e ])

abbrev byte_fits : ℕ → Option ℕ → Bool
byte_fits n none = false
byte_fits n (some k) = leb (2 ^ k) n && ltb n (2 ^ (k + 1)) && ltb k 8

byte_table : all_below 256 (λ n. n == 0 || byte_fits n (top_bit 8 n 7)) ≡ true
unfolding all_below top_bit
byte_table = refl

byte_top :
    (n : ℕ)
    → n < 256
    → 0 < n
    → (k : ℕ) × (top_bit 8 n 7 ≡ some k) × (2 ^ k ≤ n) × (n < 2 ^ (k + 1)) × (k < 8)
byte_top n h p =
    go (top_bit 8 n 7) refl (
      ground (arith, all_below_sound 256 (λ n. n == 0 || byte_fits n (top_bit 8 n 7)) n byte_table))
  where
    go :
        (r : Option ℕ)
        → top_bit 8 n 7 ≡ r
        → byte_fits n r ≡ true
        → (k : ℕ) × (top_bit 8 n 7 ≡ some k) × (2 ^ k ≤ n) × (n < 2 ^ (k + 1)) × (k < 8)
    go none e b = cc
    go (some k) e b = (k, e, ground arith, ground arith, ground arith)

-- The two loops of `height` on the bytes from the most significant on.
abbrev height_from : List ℕ → ℕ → Option ℕ
height_from bs d = skip_zeros bs d >>= λ (n, e). top_bit 8 n e

abbrev pub IsHeight : ℕ → ℕ → Type 0
IsHeight v h = (2 ^ h ≤ v) × (v < 2 ^ (h + 1))

digit-IsHeight :
    (b k m v : ℕ) → 2 ^ k ≤ b → b < 2 ^ (k + 1) → v < 2 ^ m → IsHeight (b * 2 ^ m + v) (m + k)
digit-IsHeight b k m v lo hi h =
    (rw (pow-add 2 m k) (grind arith), rw (add_assoc m k 1, pow-add 2 m (k + 1)) (grind arith))

shorter :
    (bs : List ℕ) (d : ℕ)
    → 0 < be_value bs
    → All IsByte bs
    → suc d ≡ 8 * suc (length bs)
    → suc (d - 8) ≡ 8 * length bs
unfolding be_value
shorter [] d pos p e = absurd (omega arith)
shorter (b ∷ bs) d pos p e = omega arith

skip_zeros-suc : (b : ℕ) (bs : List ℕ) (d : ℕ) → skip_zeros (suc b ∷ bs) d ≡ some (suc b, d)
unfolding skip_zeros
skip_zeros-suc b bs d = ground arith

height_from_lem :
    (bs : List ℕ) (d : ℕ)
    → All IsByte bs
    → 0 < be_value bs
    → suc d ≡ 8 * length bs
    → (h : ℕ) × (height_from bs d ≡ some h) × IsHeight (be_value bs) h × (h ≤ d)
unfolding skip_zeros be_value
height_from_lem [] d p pos e = absurd (omega arith)
height_from_lem (zero ∷ bs) d p pos e =
    let (h, eq, is, le) =
      height_from_lem bs (d - 8) p.1 (omega arith) (shorter bs d (omega arith) p.1 e) in
    let z : be_value bs ≡ be_value (zero ∷ bs) = omega arith in
    (h, eq, subst (λ v. IsHeight v h) z is, omega arith)
height_from_lem (suc b ∷ bs) d p pos e =
    let (k, eq, lo, hi, le) = byte_top (suc b) p.0 (omega arith) in
    let d_eq : d ≡ 8 * length bs + 7 = omega arith in
    (
      8 * length bs + k,
      ap (λ (o : Option (ℕ × ℕ)). o >>= λ (n, e). top_bit 8 n e) (skip_zeros-suc b bs d)
          ∙ ap (top_bit 8 (suc b)) d_eq
          ∙ top_bit-add 8 (suc b) (8 * length bs) 7 (omega arith)
          ∙ ap (Option.map (λ j. 8 * length bs + j)) eq,
      digit-IsHeight (suc b) k (8 * length bs) (be_value bs) lo hi (be_value_lt bs p.1),
      omega arith,
    )

-- For every identifier but zero `height` is the position of the highest bit that is set.
pub height-IsHeight :
    (x : KadId)
    → IsKadId x
    → 0 < value x
    → (h : ℕ) × (height x ≡ some h) × IsHeight (value x) h × (h < 128)
unfolding height value
height-IsHeight x v pos =
    let (h, eq, is, le) =
      height_from_lem (reverse x.id) 127 (All-reverse IsByte x.id v.bytes) pos
        (omega (arith, length-reverse x.id, v.size)) in
    (h, eq, is, omega arith)

skip_zeros-none : (bs : List ℕ) (d : ℕ) → be_value bs ≡ 0 → All IsByte bs → skip_zeros bs d ≡ none
unfolding skip_zeros be_value
skip_zeros-none [] d e p = refl
skip_zeros-none (zero ∷ bs) d e p = skip_zeros-none bs (d - 8) (omega arith) p.1
skip_zeros-none (suc b ∷ bs) d e p = absurd (grind (arith, one-le-pow (8 * length bs) 2))

-- For the identifier of 16 zero bytes the loop of `height` runs past the array.
pub height_zero : (x : KadId) → IsKadId x → value x ≡ 0 → height x ≡ none
unfolding height value
height_zero x v e = rw (skip_zeros-none (reverse x.id) 127 e (All-reverse IsByte x.id v.bytes))

lt_trichotomy : (a b : ℕ) → (a < b) ⊎ ((a ≡ b) ⊎ (b < a))
lt_trichotomy a b = ground arith

pub IsHeight-unique : (v h k : ℕ) → IsHeight v h → IsHeight v k → h ≡ k
IsHeight-unique v h k p q = elim (lt_trichotomy h k) [
  | inl l ↦
      absurd
        (omega (arith, pow-le-pow_right {n = 2} (omega arith) {i = h + 1} {j = k} (omega arith)))
  | inr (inl e) ↦ e
  | inr (inr l) ↦
      absurd
        (omega (arith, pow-le-pow_right {n = 2} (omega arith) {i = k + 1} {j = h} (omega arith)))
]

some_inj : (a b : ℕ) → some a ≡ some b → a ≡ b
some_inj a b e = cc

-- The height of an identifier of 16 bytes that is not zero is `h` if and only if its number is at least
-- 2 ^ h and less than 2 ^ (h + 1).
pub height_iff :
    (x : KadId) (h : ℕ) → IsKadId x → 0 < value x → (height x ≡ some h) ↔ IsHeight (value x) h
height_iff x h v pos =
    let (k, eq, is, le) = height-IsHeight x v pos in
    (
      λ e. subst (IsHeight (value x)) (some_inj k h (sym eq ∙ e)) is,
      λ is'. eq ∙ ap some (IsHeight-unique (value x) k h is is'),
    )
