-- ===== src/Shared/Bits.antt =====
-- Laws of `bit_xor` at variables, from the recursion on binary digits that it stands for.
use Prim.Native.Nat.{ℕ, zero, suc, ◌+◌, ◌*◌, ◌/◌, ◌%◌, ◌^◌, ◌≤◌, ◌<◌, bit_xor}
use Prim.Native.Nat.{digits, bit_xor-bitwise, differ}
use mathlib.Core.Path.{◌≡◌, refl, ap, ap₂, sym, ◌∙◌}
use mathlib.Core.WellFounded.{Acc, WellFounded}
use native.Mathlib.Nat.{le_refl, pow-suc, pow-zero, mul_assoc, add-zero, add-suc}
use native.Mathlib.Omega.{arith}

Acc-below : (k n : ℕ) → n < k → Acc ◌<◌ n
Acc-below zero n h = elim h [ ]
Acc-below (suc k) n h = Acc.intro n (λ m hm. Acc-below k m (omega arith))

unfoldable pub lt_wf : WellFounded ◌<◌
unfolding Acc-below
lt_wf = record { apply = λ n. Acc-below (suc n) n (omega arith) }

-- The digits of the exclusive or, with fuel.
abbrev xor_digits : ℕ → ℕ → ℕ → ℕ
xor_digits fuel a b = digits (λ rest. rest) differ fuel a b

-- Fuel beyond `a` does not matter.
enough_fuel : (a b k l : ℕ) → a ≤ k → a ≤ l → xor_digits k a b ≡ xor_digits l a b
enough_fuel zero b zero zero low high = refl
enough_fuel zero b (suc k) zero low high = refl
enough_fuel zero b zero (suc l) low high = refl
enough_fuel zero b (suc k) (suc l) low high = refl
enough_fuel (suc a) b zero l low high = absurd (omega arith)
enough_fuel (suc a) b (suc k) zero low high = absurd (omega arith)
enough_fuel (suc a) b (suc k) (suc l) low high =
    let halves = enough_fuel (suc a / 2) (b / 2) k l (omega arith) (omega arith) in rw halves

abbrev xor_digit : ℕ → ℕ → ℕ
xor_digit x y = (x + y) % 2

differ_digit : (x y : ℕ) → x < 2 → y < 2 → differ x y ≡ xor_digit x y
differ_digit zero zero h k = refl
differ_digit zero (suc zero) h k = refl
differ_digit (suc zero) zero h k = refl
differ_digit (suc zero) (suc zero) h k = refl
differ_digit zero (suc (suc y)) h k = absurd (omega arith)
differ_digit (suc zero) (suc (suc y)) h k = absurd (omega arith)
differ_digit (suc (suc x)) y h k = absurd (omega arith)

-- One equation for the lowest digit.
bit_xor_step : (a b : ℕ) → bit_xor a b ≡ bit_xor (a / 2) (b / 2) * 2 + (a + b) % 2
bit_xor_step zero b = simp bit_xor-bitwise (omega arith)
bit_xor_step (suc a) b = omega (
  arith,
  bit_xor-bitwise (suc a) b,
  bit_xor-bitwise (suc a / 2) (b / 2),
  enough_fuel (suc a / 2) (b / 2) a (suc a / 2) (omega arith) (le_refl _),
  differ_digit (suc a % 2) (b % 2) (omega arith) (omega arith),
)

bit_xor_half : (a b : ℕ) → bit_xor a b / 2 ≡ bit_xor (a / 2) (b / 2)
bit_xor_half a b = omega (arith, bit_xor_step a b)

bit_xor_parity : (a b : ℕ) → bit_xor a b % 2 ≡ (a + b) % 2
bit_xor_parity a b = omega (arith, bit_xor_step a b)

comm_fuel : (n a b : ℕ) → a ≤ n → b ≤ n → bit_xor a b ≡ bit_xor b a
comm_fuel zero zero zero h k = refl
comm_fuel zero (suc a) b h k = absurd (omega arith)
comm_fuel zero zero (suc b) h k = absurd (omega arith)
comm_fuel (suc n) a b h k = omega (
  arith,
  bit_xor_step a b,
  bit_xor_step b a,
  comm_fuel n (a / 2) (b / 2) (omega arith) (omega arith),
)

pub bit_xor_comm : (a b : ℕ) → bit_xor a b ≡ bit_xor b a
bit_xor_comm a b = comm_fuel (a + b) a b (omega arith) (omega arith)

self_fuel : (n a : ℕ) → a ≤ n → bit_xor a a ≡ 0
self_fuel zero zero h = refl
self_fuel zero (suc a) h = absurd (omega arith)
self_fuel (suc n) a h = omega (arith, bit_xor_step a a, self_fuel n (a / 2) (omega arith))

pub bit_xor_self : (a : ℕ) → bit_xor a a ≡ 0
bit_xor_self a = self_fuel a a (le_refl a)

pub zero-bit_xor : (a : ℕ) → bit_xor 0 a ≡ a
zero-bit_xor a = bit_xor-bitwise 0 a

assoc_fuel : (n a b c : ℕ) → a + b + c ≤ n → bit_xor (bit_xor a b) c ≡ bit_xor a (bit_xor b c)
assoc_fuel zero zero zero zero h = refl
assoc_fuel zero (suc a) b c h = absurd (omega arith)
assoc_fuel zero zero (suc b) c h = absurd (omega arith)
assoc_fuel zero zero zero (suc c) h = absurd (omega arith)
assoc_fuel (suc n) zero zero zero h = refl
assoc_fuel (suc n) a b c h = omega (
  arith,
  bit_xor_step (bit_xor a b) c,
  bit_xor_step a (bit_xor b c),
  bit_xor_parity a b,
  bit_xor_parity b c,
  ap (λ (t : ℕ). bit_xor t (c / 2)) (bit_xor_half a b),
  ap (λ (t : ℕ). bit_xor (a / 2) t) (bit_xor_half b c),
  assoc_fuel n (a / 2) (b / 2) (c / 2) (omega arith),
)

pub bit_xor_assoc : (a b c : ℕ) → bit_xor (bit_xor a b) c ≡ bit_xor a (bit_xor b c)
bit_xor_assoc a b c = assoc_fuel (a + b + c) a b c (le_refl _)

le_fuel : (n a b : ℕ) → a ≤ n → b ≤ n → bit_xor a b ≤ a + b
le_fuel zero zero zero h k = omega arith
le_fuel zero (suc a) b h k = absurd (omega arith)
le_fuel zero zero (suc b) h k = absurd (omega arith)
le_fuel (suc n) a b h k =
    omega (arith, bit_xor_step a b, le_fuel n (a / 2) (b / 2) (omega arith) (omega arith))

pub bit_xor-le-add : (a b : ℕ) → bit_xor a b ≤ a + b
bit_xor-le-add a b = le_fuel (a + b) a b (omega arith) (omega arith)

pub bit_xor_lt : (k a b : ℕ) → a < 2 ^ k → b < 2 ^ k → bit_xor a b < 2 ^ k
bit_xor_lt zero a b h k' = omega (arith, bit_xor-le-add a b)
bit_xor_lt (suc k) a b h k' = omega (
  arith,
  pow-suc 2 k,
  bit_xor_step a b,
  bit_xor_lt k (a / 2) (b / 2) (omega (arith, pow-suc 2 k)) (omega (arith, pow-suc 2 k)),
)

pub bit_xor_cancel : (a b : ℕ) → bit_xor a (bit_xor a b) ≡ b
bit_xor_cancel a b =
    sym (bit_xor_assoc a a b) ∙ ap (λ (t : ℕ). bit_xor t b) (bit_xor_self a) ∙ zero-bit_xor b

pub bit_xor_eq_zero : (a b : ℕ) → bit_xor a b ≡ 0 → a ≡ b
bit_xor_eq_zero a b h = sym (bit_xor_zero a) ∙ ap (bit_xor a) (sym h) ∙ bit_xor_cancel a b
  where
    bit_xor_zero : (a : ℕ) → bit_xor a 0 ≡ a
    bit_xor_zero a = bit_xor_comm a 0 ∙ zero-bit_xor a

pub pow-add : (b m n : ℕ) → b ^ (m + n) ≡ b ^ m * b ^ n
pow-add b m zero = rw (add-zero, pow-zero) (omega arith)
pow-add b m (suc n) = rw (add-suc, pow-suc, pow-suc, pow-add b m n) (mul_assoc (b ^ m) (b ^ n) b)

-- Digits of base `2 ^ k` are taken one by one.
pub bit_xor_fields :
    (k a b c d : ℕ)
    → b < 2 ^ k
    → d < 2 ^ k
    → bit_xor (a * 2 ^ k + b) (c * 2 ^ k + d) ≡ bit_xor a c * 2 ^ k + bit_xor b d
bit_xor_fields zero a b c d h h' =
    let eb : b ≡ 0 = omega arith in
    let ed : d ≡ 0 = omega arith in rw (eb, ed) (ground (arith, ap₂ bit_xor (one a) (one c)))
  where
    one : (x : ℕ) → x * 2 ^ 0 + 0 ≡ x
    one x = omega arith
bit_xor_fields (suc k) a b c d h h' = omega (
  arith,
  double a,
  double c,
  double (bit_xor a c),
  bit_xor_step (a * 2 ^ suc k + b) (c * 2 ^ suc k + d),
  bit_xor_step b d,
  ap₂ bit_xor (half a b) (half c d),
  bit_xor_fields k a (b / 2) c (d / 2) (omega (arith, pow-suc 2 k)) (omega (arith, pow-suc 2 k)),
)
  where
    double : (q : ℕ) → q * 2 ^ suc k ≡ 2 * (q * 2 ^ k)
    double q = omega (arith, ap (λ (t : ℕ). q * t) (pow-suc 2 k))

    half : (q r : ℕ) → (q * 2 ^ suc k + r) / 2 ≡ q * 2 ^ k + r / 2
    half q r = omega (arith, double q)
