-- ===== src/Shared/Bytes.antt =====
-- Byte strings: equality of `std::string`s.
use Prim.Native.Nat.{ℕ}
use mathlib.Core.Bool.{Bool, true, false, ◌&&◌}
use mathlib.Core.List.{List, [], ◌∷◌}
use mathlib.Core.Logic.{◌↔◌}
use mathlib.Core.Path.{◌≡◌, refl, ap₂, subst}
use sniffdogsniff.Shared.Tests.{◌==◌, ==_iff, ==_self, &&_split}

unfoldable pub bytes_eq : List ℕ → List ℕ → Bool
bytes_eq [] [] = true
bytes_eq (a ∷ as') (b ∷ bs) = a == b && bytes_eq as' bs
bytes_eq as' bs = false

bytes_eq_sound : (as' bs : List ℕ) → bytes_eq as' bs ≡ true → as' ≡ bs
unfolding bytes_eq
bytes_eq_sound [] [] e = refl
bytes_eq_sound [] (y ∷ ys) e = cc
bytes_eq_sound (x ∷ xs) [] e = cc
bytes_eq_sound (x ∷ xs) (y ∷ ys) e =
    let (e0, e1) = &&_split (x == y) (bytes_eq xs ys) e in
    ap₂ ◌∷◌ ((==_iff x y).0 e0) (bytes_eq_sound xs ys e1)

pub bytes_eq_self : (bs : List ℕ) → bytes_eq bs bs ≡ true
unfolding bytes_eq
bytes_eq_self [] = refl
bytes_eq_self (x ∷ xs) = rw (==_self x) (bytes_eq_self xs)

pub bytes_eq_iff : (as' bs : List ℕ) → (bytes_eq as' bs ≡ true) ↔ (as' ≡ bs)
bytes_eq_iff as' bs =
    (bytes_eq_sound as' bs, λ e. subst (λ t. bytes_eq as' t ≡ true) e (bytes_eq_self as'))
