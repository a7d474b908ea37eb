-- ===== src/Shared/Sort.antt =====
-- `std::sort` by a Boolean "comes before", as an insertion sort. The standard leaves the order of
-- equivalent elements open; here they keep their order.
use mathlib.Core.Bool.{Bool, true, false}
use mathlib.Core.List.{List, [], ◌∷◌, Perm}
use mathlib.Core.List.Perm
use mathlib.Core.Path.{◌≡◌, refl, ap, ◌∙◌}
use Prim.Native.Nat.{suc}
use sniffdogsniff.Shared.Tests.{if◌then◌else◌, Bool-cases}
use sniffdogsniff.Shared.Lists.{length, All}
use mathlib.Core.Logic.{inl, inr}

module _ {ℓ} {A : Type ℓ} (lt : A → A → Bool) where
  unfoldable pub place : A → List A → List A
  place x [] = x ∷ []
  place x (y ∷ ys) = if lt y x then y ∷ place x ys else x ∷ y ∷ ys

  unfoldable pub sort : List A → List A
  unfolding place
  sort [] = []
  sort (x ∷ xs) = place x (sort xs)

  place-perm : (x : A) (ys : List A) → Perm (place x ys) (x ∷ ys)
  unfolding place
  place-perm x [] = Perm.refl (x ∷ [])
  place-perm x (y ∷ ys) = elim (Bool-cases (lt y x)) [
    | inl e ↦ rw e (Perm.trans (Perm.cons y (place-perm x ys)) (Perm.swap x y ys))
    | inr e ↦ rw e (Perm.refl (x ∷ y ∷ ys))
  ]

  pub sort-perm : (xs : List A) → Perm (sort xs) xs
  unfolding sort
  sort-perm [] = Perm.refl []
  sort-perm (x ∷ xs) = Perm.trans (place-perm x (sort xs)) (Perm.cons x (sort-perm xs))

  place-All {κ} : (P : A → Type κ) (x : A) (ys : List A) → P x → All P ys → All P (place x ys)
  unfolding place
  place-All P x [] h k = (h, tt)
  place-All P x (y ∷ ys) h k = elim (Bool-cases (lt y x)) [
    | inl e ↦ rw e (k.0, place-All P x ys h k.1)
    | inr e ↦ rw e (h, k)
  ]

  pub sort-All {κ} : (P : A → Type κ) (xs : List A) → All P xs → All P (sort xs)
  unfolding sort
  sort-All P [] h = tt
  sort-All P (x ∷ xs) (h, hs) = place-All P x (sort xs) h (sort-All P xs hs)

  length-place : (x : A) (ys : List A) → length (place x ys) ≡ suc (length ys)
  unfolding place
  length-place x [] = refl
  length-place x (y ∷ ys) = elim (Bool-cases (lt y x)) [
    | inl e ↦ rw e (ap suc (length-place x ys))
    | inr e ↦ rw e
  ]

  pub length-sort : (xs : List A) → length (sort xs) ≡ length xs
  unfolding sort
  length-sort [] = refl
  length-sort (x ∷ xs) = length-place x (sort xs) ∙ ap suc (length-sort xs)

-- No element comes before one that stands in front of it.
module _ {ℓ} {A : Type ℓ} (lt : A → A → Bool) where
  abbrev pub IsSorted : List A → Type 0
  IsSorted [] = Unit {0}
  IsSorted (x ∷ xs) = All (λ y. lt y x ≡ false) xs × IsSorted xs

-- `lt` need be an order only on the elements with `V`.
module _ {ℓ κ} {A : Type ℓ} (V : A → Type κ) (lt : A → A → Bool)
    (asym : (a b : A) → V a → V b → lt a b ≡ true → lt b a ≡ false)
    (trans : (a b c : A) → V a → V b → V c → lt b a ≡ false → lt c b ≡ false → lt c a ≡ false) where
  All-trans :
      (x y : A) (ys : List A)
      → V x
      → V y
      → All V ys
      → lt y x ≡ false
      → All (λ z. lt z y ≡ false) ys
      → All (λ z. lt z x ≡ false) ys
  All-trans x y [] vx vy v h k = tt
  All-trans x y (z ∷ zs) vx vy v h k =
      (trans x y z vx vy v.0 h k.0, All-trans x y zs vx vy v.1 h k.1)

  place-IsSorted :
      (x : A) (ys : List A) → V x → All V ys → IsSorted lt ys → IsSorted lt (place lt x ys)
  unfolding place
  place-IsSorted x [] vx v h = (tt, tt)
  place-IsSorted x (y ∷ ys) vx v h = elim (Bool-cases (lt y x)) [
    | inl e ↦ rw e (
      place-All lt (λ z. lt z y ≡ false) x ys (asym y x v.0 vx e) h.0,
      place-IsSorted x ys vx v.1 h.1,
    )
    | inr e ↦ rw e ((e, All-trans x y ys vx v.0 v.1 e h.0), h)
  ]

  pub sort-IsSorted : (xs : List A) → All V xs → IsSorted lt (sort lt xs)
  unfolding sort
  sort-IsSorted [] v = tt
  sort-IsSorted (x ∷ xs) v =
      place-IsSorted x (sort lt xs) v.0 (sort-All lt V xs v.1) (sort-IsSorted xs v.1)
