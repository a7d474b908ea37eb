-- ===== src/Kad/Id/Value.antt =====
-- An identifier as a number: equality, order and the exclusive or, read on numbers.
use sniffdogsniff.Shared.{ℕ, suc, ◌+◌, ◌*◌, ◌^◌, ◌<◌, ◌≡◌, refl, ap, ap₂, sym, subst, ◌∙◌}
use sniffdogsniff.Shared.{bit_xor, true, none, some, arith, ◌↔◌, inl, inr}
use sniffdogsniff.Shared.{
  List, [], ◌∷◌, ◌++◌, reverse, reverse-cons, reverse-reverse, length, All, All-reverse,
}
use sniffdogsniff.Shared.{
  length-reverse, ltb, ◌==◌, if◌then◌else◌, Bool-cases, ==_iff, ==_self, &&_split,
}
use sniffdogsniff.Shared.Bits.{bit_xor_fields, bit_xor_lt, pow-add}
use sniffdogsniff.Kad.Id.{KadId, IsKadId, IsByte, xor_bytes, eq_bytes, lt_from, be_value, value}
use sniffdogsniff.Kad.Id.{operator_minus, operator_eq, operator_lt}

byte_power : (m : ℕ) → 2 ^ (8 * suc m) ≡ 256 * 2 ^ (8 * m)
byte_power m = ap (λ (t : ℕ). 2 ^ t) (eight m) ∙ pow-add 2 8 (8 * m)
  where
    eight : (m : ℕ) → 8 * suc m ≡ 8 + 8 * m
    eight m = omega arith

digit_lt : (b p v : ℕ) → b < 256 → v < p → b * p + v < 256 * p
digit_lt b p v h k = grind arith

pub be_value_lt : (bs : List ℕ) → All IsByte bs → be_value bs < 2 ^ (8 * length bs)
unfolding be_value
be_value_lt [] h = omega arith
be_value_lt (b ∷ bs) (h, hs) =
    rw (byte_power (length bs))
      (digit_lt b (2 ^ (8 * length bs)) (be_value bs) h (be_value_lt bs hs))

xor_bytes-concat :
    (as' bs : List ℕ) (a b : ℕ)
    → length as' ≡ length bs
    → xor_bytes (as' ++ a ∷ []) (bs ++ b ∷ []) ≡ xor_bytes as' bs ++ bit_xor a b ∷ []
unfolding xor_bytes
xor_bytes-concat [] [] a b h = refl
xor_bytes-concat [] (y ∷ ys) a b h = absurd (omega arith)
xor_bytes-concat (x ∷ xs) [] a b h = absurd (omega arith)
xor_bytes-concat (x ∷ xs) (y ∷ ys) a b h =
    ap (◌∷◌ (bit_xor x y)) (xor_bytes-concat xs ys a b (omega arith))

reverse-xor_bytes :
    (as' bs : List ℕ)
    → length as' ≡ length bs
    → reverse (xor_bytes as' bs) ≡ xor_bytes (reverse as') (reverse bs)
unfolding xor_bytes
reverse-xor_bytes [] [] h = refl
reverse-xor_bytes [] (y ∷ ys) h = absurd (omega arith)
reverse-xor_bytes (x ∷ xs) [] h = absurd (omega arith)
reverse-xor_bytes (x ∷ xs) (y ∷ ys) h = rw (
  reverse-cons (bit_xor x y),
  reverse-cons x xs,
  reverse-cons y ys,
  xor_bytes-concat (reverse xs) (reverse ys) x y
      (omega (arith, length-reverse xs, length-reverse ys)),
  reverse-xor_bytes xs ys (omega arith),
)

length-xor_bytes :
    (as' bs : List ℕ) → length as' ≡ length bs → length (xor_bytes as' bs) ≡ length as'
unfolding xor_bytes
length-xor_bytes [] [] h = refl
length-xor_bytes [] (y ∷ ys) h = absurd (omega arith)
length-xor_bytes (x ∷ xs) [] h = absurd (omega arith)
length-xor_bytes (x ∷ xs) (y ∷ ys) h = ap suc (length-xor_bytes xs ys (omega arith))

xor_bytes-IsByte :
    (as' bs : List ℕ) → All IsByte as' → All IsByte bs → All IsByte (xor_bytes as' bs)
unfolding xor_bytes
xor_bytes-IsByte [] bs h k = tt
xor_bytes-IsByte (x ∷ xs) [] h k = tt
xor_bytes-IsByte (x ∷ xs) (y ∷ ys) h k = (bit_xor_lt 8 x y h.0 k.0, xor_bytes-IsByte xs ys h.1 k.1)

be_value-xor_bytes :
    (as' bs : List ℕ)
    → length as' ≡ length bs
    → All IsByte as'
    → All IsByte bs
    → be_value (xor_bytes as' bs) ≡ bit_xor (be_value as') (be_value bs)
unfolding be_value xor_bytes
be_value-xor_bytes [] [] h p q = refl
be_value-xor_bytes [] (y ∷ ys) h p q = absurd (omega arith)
be_value-xor_bytes (x ∷ xs) [] h p q = absurd (omega arith)
be_value-xor_bytes (x ∷ xs) (y ∷ ys) h p q =
    let e : length xs ≡ length ys = omega arith in
    rw (length-xor_bytes xs ys e, be_value-xor_bytes xs ys e p.1 q.1, ← e)
      (sym (
        bit_xor_fields (8 * length xs) x (be_value xs) y (be_value ys) (be_value_lt xs p.1)
          (rw e (be_value_lt ys q.1))))

reverse_bytes : (x : KadId) → IsKadId x → (length (reverse x.id) ≡ 16) × All IsByte (reverse x.id)
reverse_bytes x h = (omega (arith, length-reverse x.id, h.size), All-reverse IsByte x.id h.bytes)

pub operator_minus-IsKadId : (x y : KadId) → IsKadId x → IsKadId y → IsKadId (operator_minus x y)
unfolding operator_minus
operator_minus-IsKadId x y h k = record {
  size = length-xor_bytes x.id y.id (h.size ∙ sym k.size) ∙ h.size;
  bytes = xor_bytes-IsByte x.id y.id h.bytes k.bytes;
}

-- `operator-` is the exclusive or of the numbers.
pub value-operator_minus :
    (x y : KadId) → IsKadId x → IsKadId y → value (operator_minus x y) ≡ bit_xor (value x) (value y)
unfolding value operator_minus
value-operator_minus x y h k = rw (reverse-xor_bytes x.id y.id (h.size ∙ sym k.size)) (
    be_value-xor_bytes (reverse x.id) (reverse y.id)
      ((reverse_bytes x h).0 ∙ sym (reverse_bytes y k).0) (reverse_bytes x h).1
      (reverse_bytes y k).1)

pub value_lt : (x : KadId) → IsKadId x → value x < 2 ^ 128
unfolding value
value_lt x h =
    subst (λ n. be_value (reverse x.id) < 2 ^ (8 * n)) (reverse_bytes x h).0
      (be_value_lt (reverse x.id) (reverse_bytes x h).1)

digit_order : (a b p v w : ℕ) → v < p → w < p → a < b → a * p + v < b * p + w
digit_order a b p v w h k l = grind arith

order_digit :
    (a b p v w : ℕ)
    → v < p
    → w < p
    → (if a == b then (if v == w then none else some (ltb v w)) else some (ltb a b))
      ≡ (if a * p + v == b * p + w then none else some (ltb (a * p + v) (b * p + w)))
order_digit a b p v w h k = ground (
  arith,
  digit_order a b p v w h k,
  digit_order b a p w v k h,
  λ (e : a ≡ b). ap (λ (t : ℕ). t * p) e,
)

same_digit : (a b p v w : ℕ) → v < p → w < p → a * p + v ≡ b * p + w → (a ≡ b) × (v ≡ w)
same_digit a b p v w h k e = ground (
  arith,
  digit_order a b p v w h k,
  digit_order b a p w v k h,
  λ (e : a ≡ b). ap (λ (t : ℕ). t * p) e,
)

lt_from_lem :
    (as' bs : List ℕ)
    → length as' ≡ length bs
    → All IsByte as'
    → All IsByte bs
    → lt_from as' bs
      ≡ (if be_value as' == be_value bs then none else some (ltb (be_value as') (be_value bs)))
unfolding lt_from be_value
lt_from_lem [] [] h p q = refl
lt_from_lem [] (y ∷ ys) h p q = absurd (omega arith)
lt_from_lem (x ∷ xs) [] h p q = absurd (omega arith)
lt_from_lem (x ∷ xs) (y ∷ ys) h p q =
    let e : length xs ≡ length ys = omega arith in
    rw (lt_from_lem xs ys e p.1 q.1, ← e)
      (order_digit x y (2 ^ (8 * length xs)) (be_value xs) (be_value ys) (be_value_lt xs p.1)
        (rw e (be_value_lt ys q.1)))

-- `operator<` compares identifiers of 16 bytes as numbers; of an identifier with itself it reads
-- outside the arrays.
pub operator_lt-value :
    (x y : KadId)
    → IsKadId x
    → IsKadId y
    → operator_lt x y ≡ (if value x == value y then none else some (ltb (value x) (value y)))
unfolding operator_lt value
operator_lt-value x y h k =
    lt_from_lem (reverse x.id) (reverse y.id) ((reverse_bytes x h).0 ∙ sym (reverse_bytes y k).0)
      (reverse_bytes x h).1 (reverse_bytes y k).1

be_value-injective :
    (as' bs : List ℕ)
    → length as' ≡ length bs
    → All IsByte as'
    → All IsByte bs
    → be_value as' ≡ be_value bs
    → as' ≡ bs
unfolding be_value
be_value-injective [] [] h p q e = refl
be_value-injective [] (y ∷ ys) h p q e = absurd (omega arith)
be_value-injective (x ∷ xs) [] h p q e = absurd (omega arith)
be_value-injective (x ∷ xs) (y ∷ ys) h p q e =
    let l : length xs ≡ length ys = omega arith in
    let (d, r) =
      same_digit x y (2 ^ (8 * length xs)) (be_value xs) (be_value ys) (be_value_lt xs p.1)
        (rw l (be_value_lt ys q.1)) (e ∙ ap (λ (n : ℕ). y * 2 ^ (8 * n) + be_value ys) (sym l)) in
    ap₂ ◌∷◌ d (be_value-injective xs ys l p.1 q.1 r)

-- The number determines the identifier.
pub value-injective : (x y : KadId) → IsKadId x → IsKadId y → value x ≡ value y → x ≡ y
unfolding value
value-injective x y h k e = λ i. record { id = same i }
  where
    same : x.id ≡ y.id
    same =
        sym (reverse-reverse x.id)
        ∙ ap reverse (
            be_value-injective (reverse x.id) (reverse y.id)
              ((reverse_bytes x h).0 ∙ sym (reverse_bytes y k).0) (reverse_bytes x h).1
              (reverse_bytes y k).1 e)
        ∙ reverse-reverse y.id

eq_bytes_sound : (as' bs : List ℕ) → eq_bytes as' bs ≡ true → as' ≡ bs
unfolding eq_bytes
eq_bytes_sound [] [] e = refl
eq_bytes_sound [] (y ∷ ys) e = cc
eq_bytes_sound (x ∷ xs) [] e = cc
eq_bytes_sound (x ∷ xs) (y ∷ ys) e =
    let (e0, e1) = &&_split (x == y) (eq_bytes xs ys) e in
    ap₂ ◌∷◌ ((==_iff x y).0 e0) (eq_bytes_sound xs ys e1)

eq_bytes_self : (bs : List ℕ) → eq_bytes bs bs ≡ true
unfolding eq_bytes
eq_bytes_self [] = refl
eq_bytes_self (x ∷ xs) = rw (==_self x) (eq_bytes_self xs)

-- `operator==` is true for equal identifiers and for no others.
pub operator_eq_iff : (x y : KadId) → (operator_eq x y ≡ true) ↔ (x ≡ y)
unfolding operator_eq
operator_eq_iff x y = (
  λ e i. record { id = eq_bytes_sound x.id y.id e i },
  λ e. subst (λ z. eq_bytes x.id z.id ≡ true) e (eq_bytes_self x.id),
)

pub operator_eq_self : (x : KadId) → operator_eq x x ≡ true
unfolding operator_eq
operator_eq_self x = eq_bytes_self x.id

pub operator_eq-value :
    (x y : KadId) → IsKadId x → IsKadId y → operator_eq x y ≡ (value x == value y)
operator_eq-value x y h k = elim (Bool-cases (operator_eq x y)) [
  | inl e ↦ rw (e, (operator_eq_iff x y).0 e) (sym (==_self (value y)))
  | inr e ↦ rw e (
      ground
        (arith, λ (v : value x ≡ value y). (operator_eq_iff x y).1 (value-injective x y h k v)))
]
