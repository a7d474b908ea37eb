-- ===== src/Wire/Buf/Growth.antt =====
-- The loop of `SdsBytesBuf::resize`.
use sniffdogsniff.Shared.{
  ℕ, zero, suc, ◌*◌, ◌%◌, ◌^◌, ◌≤◌, ◌<◌, ◌≡◌, refl, ap, ◌∙◌, true, ◌⊎◌, inl, inr, some, none, arith,
  ltb, Bool-cases,
}
use sniffdogsniff.Wire.Buf.{grow, size_mod}
use native.Mathlib.Nat.{pow-suc}

double_fits : (c f s : ℕ) → s ≤ c * 2 ^ suc f → s ≤ c * 2 * 2 ^ f
double_fits c f s h = omega (arith, h, ap (λ (t : ℕ). c * t) (pow-suc 2 f))

grow_step :
    (f c s : ℕ) → ltb c s ≡ true → c * 2 % size_mod ≡ c * 2 → grow (suc f) c s ≡ grow f (c * 2) s
unfolding grow
grow_step f c s l w = rw (l, w)

grow_fuel :
    (f c s : ℕ)
    → 0 < c
    → s ≤ 2 ^ 63
    → s ≤ c * 2 ^ f
    → (r : ℕ) × (grow f c s ≡ some r) × (s ≤ r) × (c ≤ r) × ((r ≡ c) ⊎ (r < 2 * s))
unfolding grow
grow_fuel zero c s pos small fits = (c, ground arith, omega arith, omega arith, inl refl)
grow_fuel (suc f) c s pos small fits = elim (Bool-cases (ltb c s)) [
  | inl l ↦
      let lt : c < s = ground arith in
      let no_wrap : c * 2 % size_mod ≡ c * 2 = omega arith in
      let (r, e, ge, le, or) = grow_fuel f (c * 2) s (omega arith) small (double_fits c f s fits) in
      (r, grow_step f c s l no_wrap ∙ e, ge, omega arith, inr (ground arith))
  | inr l ↦ (c, rw l, ground arith, omega arith, inl refl)
]

-- From a capacity that is not 0, and for a size up to 2 ^ 63, the loop ends within 64 rounds: the new
-- capacity suffices, and it is the old one or less than twice the size.
pub grow_lem :
    (c s : ℕ)
    → 0 < c
    → s ≤ 2 ^ 63
    → (r : ℕ) × (grow 64 c s ≡ some r) × (s ≤ r) × (c ≤ r) × ((r ≡ c) ⊎ (r < 2 * s))
grow_lem c s pos small = grow_fuel 64 c s pos small (omega arith)

-- From the capacity 0, which `allocate(0)` leaves, the loop does not end for a positive size, however
-- many rounds it is given.
pub grow_zero : (f s : ℕ) → 0 < s → grow f 0 s ≡ none
unfolding grow
grow_zero zero s pos = ground arith
grow_zero (suc f) s pos = rw (grow_zero f s pos) (ground arith)
