-- ===== src/Net/Stun/RoundTrip.antt =====
-- MessageAttributes that are read after they have been written.
use sniffdogsniff.Shared.{
  ℕ, zero, suc, ◌+◌, ◌*◌, ◌/◌, ◌%◌, ◌^◌, ◌≤◌, ◌<◌, ◌≡◌, ◌⊎◌, refl, sym, ap, subst, ◌∙◌, inl, inr,
  true, ◌&&◌, List, [], ◌∷◌, ◌++◌, map, append_assoc, append-nil, replicate, length, length-append,
  length-replicate, take, take-length, drop, drop-length, ltb, lt→ltb, le→leb, all_below,
  all_below_sound, &&_split, ltb→lt, All, arith,
}
use native.Mathlib.Nat.{pow-suc}
use sniffdogsniff.Wire.Outcome.{ok, ◌>>=◌}
use sniffdogsniff.Wire.Buf.{le_bytes}
use sniffdogsniff.Net.Stun.{
  Attribute, MessageAttributes, no_attributes, grown, add_attribute, be16, write_attribute,
  write_attributes, read_attributes, read_message_attributes,
}

-- The array of a message has twice as much room with each attribute.
unfoldable pub IsGrown : MessageAttributes → Type 0
IsGrown m =
    (m ≡ no_attributes)
    ⊎ ((m.allocated ≡ true) × (m.attrs_capacity ≡ 2 ^ length m.attrs) × (0 < length m.attrs))

doubled : (n : ℕ) → 2 ^ n * 2 ≡ 2 ^ suc n
doubled n = sym (pow-suc 2 n)

powers_table : all_below 30 (λ n. ltb n (2 ^ n) && ltb (2 ^ suc n) (2 ^ 31)) ≡ true
unfolding all_below
powers_table = refl

powers : (n : ℕ) → n < 30 → (n < 2 ^ n) × (2 ^ suc n < 2 ^ 31)
powers n h =
    let (a, b) = &&_split _ _ (all_below_sound 30 _ n powers_table h) in
    (ltb→lt _ _ a, ltb→lt _ _ b)

add_attribute-IsGrown :
    (a : Attribute) (m : MessageAttributes)
    → IsGrown m
    → length m.attrs < 30
    → (m' : MessageAttributes) × (add_attribute a m ≡ ok m')
      × IsGrown m'
      × (m'.attrs ≡ m.attrs ++ (a ∷ []))
unfolding add_attribute grown IsGrown
add_attribute-IsGrown a m (inl e) h =
    subst
      (λ m.
        (m' : MessageAttributes) × (add_attribute a m ≡ ok m')
        × IsGrown m'
        × (m'.attrs ≡ m.attrs ++ (a ∷ [])))
      (sym e)
      (
        record { allocated = true; attrs_capacity = 2; attrs = a ∷ [] },
        refl,
        inr (refl, refl, omega arith),
        refl,
      )
add_attribute-IsGrown a m (inr (al, c, p)) h =
    let (small, fits) = powers (length m.attrs) h in
    let g : grown m ≡ 2 ^ suc (length m.attrs) =
      rw (grown, al, c, le→leb (length m.attrs) (2 ^ length m.attrs) (omega arith))
        (doubled (length m.attrs)) in
    let k : length (m.attrs ++ (a ∷ [])) ≡ suc (length m.attrs) =
      omega (arith, length-append m.attrs (a ∷ [])) in
    (
      record {
        allocated = true;
        attrs_capacity = 2 ^ suc (length m.attrs);
        attrs = m.attrs ++ (a ∷ []);
      },
      rw
          (
            add_attribute,
            g,
            lt→ltb _ _ fits,
            lt→ltb (length m.attrs) (2 ^ suc (length m.attrs))
                (omega (arith, doubled (length m.attrs))),
          )
          refl,
      inr (refl, ap (λ (n : ℕ). 2 ^ n) (sym k), omega arith),
      refl,
    )

unfoldable pub IsAttribute : Attribute → Type 0
IsAttribute a = (a.attr_type < 65536) × (length a.value < 65536)

unfoldable pub swapped : Attribute → Attribute
swapped a = record a { attr_type = a.attr_type % 256 * 256 + a.attr_type / 256 }

drop_padded :
    (vs zs bs : List ℕ) (n : ℕ) → length vs + length zs ≡ n → drop n ((vs ++ zs) ++ bs) ≡ bs
drop_padded vs zs bs n e =
    let k : length (vs ++ zs) ≡ n = omega (arith, length-append vs zs) in
    subst (λ (n : ℕ). drop n ((vs ++ zs) ++ bs) ≡ bs) k (drop-length (vs ++ zs) bs)

read_attributes-write_attribute :
    (fuel : ℕ) (a : Attribute) (bs : List ℕ) (m : MessageAttributes)
    → IsAttribute a
    → read_attributes (suc fuel) (write_attribute a ++ bs) m
      ≡ (add_attribute (swapped a) m >>= λ m'. read_attributes fuel bs m')
unfolding read_attributes write_attribute IsAttribute be16 le_bytes swapped
read_attributes-write_attribute fuel a bs m (t, v) =
    let n : ℕ = length a.value in
    let e : n / 256 % 256 * 256 + n % 256 ≡ n = omega arith in
    let zs : List ℕ = replicate (n % 4) 0 in
    let d : drop (n + n % 4) ((a.value ++ zs) ++ bs) ≡ bs =
      drop_padded a.value zs bs (n + n % 4) (omega (arith, length-replicate {A = ℕ} (n % 4) 0)) in
    let k : n ≤ length ((a.value ++ zs) ++ bs) =
      omega (arith, length-append (a.value ++ zs) bs, length-append a.value zs) in
    let w : take n ((a.value ++ zs) ++ bs) ≡ a.value =
      ap (take n) (append_assoc a.value zs bs) ∙ take-length a.value (zs ++ bs) in
    let b : a.attr_type / 256 % 256 ≡ a.attr_type / 256 = omega arith in
    rw (e, le→leb n _ k, d, w, b) refl

read_attributes-write_attributes :
    (fuel : ℕ) (as' : List Attribute) (m : MessageAttributes)
    → All IsAttribute as'
    → IsGrown m
    → length m.attrs + length as' ≤ 30
    → length as' ≤ fuel
    → (m' : MessageAttributes) × (read_attributes fuel (write_attributes as') m ≡ ok m')
      × (m'.attrs ≡ m.attrs ++ map swapped as')
unfolding write_attributes read_attributes
read_attributes-write_attributes fuel [] m v g h k = (m, refl, sym (append-nil m.attrs))
read_attributes-write_attributes zero (a ∷ as') m v g h k = absurd (omega arith)
read_attributes-write_attributes (suc fuel) (a ∷ as') m (v, vs) g h k =
    let (m1, e, g1, w) = add_attribute-IsGrown (swapped a) m g (omega arith) in
    let l : length m1.attrs ≡ suc (length m.attrs) =
      ap length w ∙ omega (arith, length-append m.attrs (swapped a ∷ [])) in
    let (m2, e2, w2) =
      read_attributes-write_attributes fuel as' m1 vs g1 (omega arith) (omega arith) in
    (
      m2,
      read_attributes-write_attribute fuel a (write_attributes as') m v
          ∙ ap (λ r. r >>= read_attributes fuel (write_attributes as')) e
          ∙ e2,
      w2
          ∙ ap (λ l. l ++ map swapped as') w
          ∙ append_assoc m.attrs (swapped a ∷ []) (map swapped as'),
    )

count-write_attributes : (as' : List Attribute) → length as' ≤ length (write_attributes as')
unfolding write_attributes write_attribute le_bytes
count-write_attributes [] = omega arith
count-write_attributes (a ∷ as') =
    omega
      (arith, count-write_attributes as', length-append (write_attribute a) (write_attributes as'))

-- At most 30 attributes with types below 65536 and values shorter than that, which
-- `stun_write_message` puts behind the header, are read back by `stun_read_message_arributes` with their
-- values, in the same order, and with the two bytes of each type exchanged.
pub read_message_attributes-write_attributes :
    (as' : List Attribute)
    → All IsAttribute as'
    → length as' ≤ 30
    → (m : MessageAttributes) × (read_message_attributes (write_attributes as') no_attributes
        ≡ ok m)
      × (m.attrs ≡ map swapped as')
unfolding read_message_attributes IsGrown
read_message_attributes-write_attributes as' v h =
    read_attributes-write_attributes (length (write_attributes as')) as' no_attributes v (inl refl)
      (omega arith) (count-write_attributes as')
