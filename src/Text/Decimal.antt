-- ===== src/Text/Decimal.antt =====
-- `std::to_string` of a number, and what a stream writes for it.
use sniffdogsniff.Shared.{
  ◌-◌, ℕ, zero, suc, ◌+◌, ◌*◌, ◌/◌, ◌%◌, ◌<◌, ◌≡◌, refl, ◌∙◌, List, [], ◌∷◌, ◌++◌, ltb,
  if◌then◌else◌, Bool-cases, inl, inr, arith,
}

-- The last digit is the remainder by 10; with `suc n` steps no number is cut off.
unfoldable pub digits : ℕ → ℕ → List ℕ
digits zero n = []
digits (suc steps) n =
    let rest = digits steps (n / 10) in
    if ltb n 10 then (48 + n) ∷ [] else rest ++ ((48 + n % 10) ∷ [])

unfoldable pub decimal : ℕ → List ℕ
unfolding digits
decimal n = digits (suc n) n

-- The number that a text of digits stands for, behind the digits of `a`.
pub read_digits : ℕ → List ℕ → ℕ
read_digits a [] = a
read_digits a (c ∷ cs) = read_digits (a * 10 + (c - 48)) cs

read_digits-append :
    (a : ℕ) (cs ds : List ℕ) → read_digits a (cs ++ ds) ≡ read_digits (read_digits a cs) ds
unfolding read_digits
read_digits-append a [] ds = refl
read_digits-append a (c ∷ cs) ds = read_digits-append (a * 10 + (c - 48)) cs ds

digits_lem : (steps n : ℕ) → n < steps → read_digits 0 (digits steps n) ≡ n
unfolding digits read_digits
digits_lem zero n h = elim h [ ]
digits_lem (suc steps) n h = elim (Bool-cases (ltb n 10)) [
  | inl e ↦ rw e (omega arith)
  | inr e ↦ rw e (
      read_digits-append 0 (digits steps (n / 10)) ((48 + n % 10) ∷ [])
      ∙ omega (arith, digits_lem steps (n / 10) (ground arith)))
]

-- The decimal text of a number is read back as the number.
pub read_digits-decimal : (n : ℕ) → read_digits 0 (decimal n) ≡ n
unfolding decimal
read_digits-decimal n = digits_lem (suc n) n (omega arith)
