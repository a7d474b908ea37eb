-- ===== src/Kad/Id/Metric.antt =====
-- The distance of identifiers as a metric, and `idNbitsFarFrom`.
use sniffdogsniff.Shared.{ℕ, zero, suc, ◌+◌, ◌-◌, ◌^◌, ◌≤◌, ◌<◌, ◌≡◌, refl, ap, sym, ◌∙◌}
use sniffdogsniff.Shared.{bit_xor, Bool, true, some, arith, ◌↔◌, ◌⊎◌, inl, inr}
use sniffdogsniff.Shared.{List, [], ◌∷◌, length, All, ◌&&◌, &&_split}
use sniffdogsniff.Shared.{ltb, ltb→lt, ◌==◌, ==_iff, all_below, all_below_sound}
use sniffdogsniff.Shared.Bits.{
  bit_xor_comm, bit_xor_self, bit_xor_assoc, bit_xor-le-add, bit_xor_eq_zero, bit_xor_cancel,
}
use sniffdogsniff.Kad.Id.{
  KadId, IsKadId, IsByte, operator_minus, far_mask, id_nbits_far_from, value, height,
}
use sniffdogsniff.Kad.Id.Value.{value-operator_minus, value-injective, operator_minus-IsKadId}
use native.Mathlib.Nat.{one-le-pow, pow-le-pow_right}
use sniffdogsniff.Kad.Id.Height.{height_iff}

-- On identifiers of 16 bytes the distance is a metric: zero for equal identifiers only, symmetric, and
-- within the triangle inequality as a number. No two identifiers are equally far from a third.
pub distance_metric :
    (x y z : KadId)
    → IsKadId x
    → IsKadId y
    → IsKadId z
    → ((value (operator_minus x y) ≡ 0) ↔ (x ≡ y))
      × (operator_minus x y ≡ operator_minus y x)
      × (value (operator_minus x z) ≤ value (operator_minus x y) + value (operator_minus y z))
      × ((operator_minus x y ≡ operator_minus x z) ↔ (y ≡ z))
distance_metric x y z hx hy hz = (
  (
    λ e. value-injective x y hx hy (bit_xor_eq_zero (value x) (value y) (sym xy ∙ e)),
    λ e. xy ∙ ap (λ (t : KadId). bit_xor (value x) (value t)) (sym e) ∙ bit_xor_self (value x),
  ),
  value-injective _ _ (operator_minus-IsKadId x y hx hy) (operator_minus-IsKadId y x hy hx)
      (xy ∙ bit_xor_comm (value x) (value y) ∙ sym (value-operator_minus y x hy hx)),
  rw (xz, xy, yz, ← middle)
      (bit_xor-le-add (bit_xor (value x) (value y)) (bit_xor (value y) (value z))),
  (
    λ e. value-injective y z hy hz (
        sym (bit_xor_cancel (value x) (value y))
        ∙ ap (bit_xor (value x)) (sym xy ∙ ap value e ∙ xz)
        ∙ bit_xor_cancel (value x) (value z)),
    λ e. ap (operator_minus x) e,
  ),
)
  where
    xy : value (operator_minus x y) ≡ bit_xor (value x) (value y)
    xy = value-operator_minus x y hx hy

    xz : value (operator_minus x z) ≡ bit_xor (value x) (value z)
    xz = value-operator_minus x z hx hz

    yz : value (operator_minus y z) ≡ bit_xor (value y) (value z)
    yz = value-operator_minus y z hy hz

    middle :
        bit_xor (bit_xor (value x) (value y)) (bit_xor (value y) (value z))
        ≡ bit_xor (value x) (value z)
    middle =
        bit_xor_assoc (value x) (value y) _
        ∙ ap (bit_xor (value x)) (bit_xor_cancel (value y) (value z))

all_bytes : List ℕ → Bool
all_bytes [] = true
all_bytes (b ∷ bs) = ltb b 256 && all_bytes bs

all_bytes-IsByte : (bs : List ℕ) → all_bytes bs ≡ true → All IsByte bs
unfolding all_bytes
all_bytes-IsByte [] e = tt
all_bytes-IsByte (b ∷ bs) e =
    let (e0, e1) = &&_split (ltb b 256) (all_bytes bs) e in
    (ltb→lt b 256 e0, all_bytes-IsByte bs e1)

far_fits : ℕ → Bool
far_fits b =
    length (far_mask b) == 16
    && (all_bytes (far_mask b) && (value (record { id = far_mask b }) == 2 ^ 128 - 2 ^ (128 - b)))

far_table : all_below 129 far_fits ≡ true
unfolding all_below far_fits all_bytes far_mask value
far_table = refl

far_mask_lem :
    (b : ℕ)
    → b ≤ 128
    → IsKadId (record { id = far_mask b })
      × (value (record { id = far_mask b }) ≡ 2 ^ 128 - 2 ^ (128 - b))
unfolding far_fits
far_mask_lem b h =
    let (e0, e1) =
      &&_split (length (far_mask b) == 16) _
        (all_below_sound 129 far_fits b far_table (omega arith)) in
    let (e2, e3) = &&_split (all_bytes (far_mask b)) _ e1 in
    (
      record {
        size = (==_iff (length (far_mask b)) 16).0 e0;
        bytes = all_bytes-IsByte (far_mask b) e2;
      },
      (==_iff (value (record { id = far_mask b })) (2 ^ 128 - 2 ^ (128 - b))).0 e3,
    )

-- `idNbitsFarFrom id1 bdist` flips the `bdist` highest bits of `id1`: the distance to it has exactly
-- those bits set, so for a positive `bdist` up to 128 its height is 127 whatever `bdist` is.
pub id_nbits_far_from_lem :
    (x : KadId) (bdist : ℕ)
    → IsKadId x
    → bdist ≤ 128
    → (value (operator_minus (id_nbits_far_from x bdist) x) ≡ 2 ^ 128 - 2 ^ (128 - bdist))
      × ((bdist ≡ 0) ⊎ (height (operator_minus (id_nbits_far_from x bdist) x) ≡ some 127))
unfolding id_nbits_far_from
id_nbits_far_from_lem x b hx hb = (dist, either b highest)
  where
    either : {A : Type 0} (k : ℕ) → (0 < k → A) → (k ≡ 0) ⊎ A
    either zero f = inl refl
    either (suc k) f = inr (f (omega arith))

    mask : KadId
    mask = record { id = far_mask b }

    good : IsKadId mask
    good = (far_mask_lem b hb).0

    dist : value (operator_minus (operator_minus mask x) x) ≡ 2 ^ 128 - 2 ^ (128 - b)
    dist =
        value-operator_minus (operator_minus mask x) x (operator_minus-IsKadId mask x good hx) hx
        ∙ ap (λ (t : ℕ). bit_xor t (value x))
            (value-operator_minus mask x good hx ∙ bit_xor_comm (value mask) (value x))
        ∙ bit_xor_comm _ (value x)
        ∙ bit_xor_cancel (value x) (value mask)
        ∙ (far_mask_lem b hb).1

    near : KadId
    near = operator_minus (operator_minus mask x) x

    highest : 0 < b → height near ≡ some 127
    highest pos =
        let small : 2 ^ (128 - b) ≤ 2 ^ 127 =
          pow-le-pow_right {n = 2} (omega arith) {i = 128 - b} {j = 127} (omega arith) in
        let one : 1 ≤ 2 ^ (128 - b) = one-le-pow (128 - b) 2 (omega arith) in
        (height_iff near 127 (operator_minus-IsKadId _ x (operator_minus-IsKadId mask x good hx) hx)
            (omega (arith, dist))).1
          (omega (arith, dist))
