-- ===== src/Kad/Table/Visit.antt =====
-- The loop of `getClosestTo` over the buckets visits each bucket once.
use sniffdogsniff.Shared.{
  ℕ, zero, suc, ◌+◌, ◌-◌, ◌≤◌, ◌<◌, ◌≡◌, refl, sym, ap, ◌∙◌, Bool, true, false, ◌||◌, arith, inl,
  inr, ◌⊎◌, min,
}
use sniffdogsniff.Shared.{
  List, [], ◌∷◌, ◌++◌, length, length-append, take, take_all, length-take, take-append_full,
  append_assoc, append-nil, All, All-append, leb, ltb, if◌then◌else◌, Bool-cases,
}
use sniffdogsniff.Kad.Id.{kad_id_bit_length}
use sniffdogsniff.Kad.Node.{KadNode}
use sniffdogsniff.Kad.Bucket.{KadBucket}
use sniffdogsniff.Kad.Table.{nodes_at, fill, spread, get_all_nodes}

fill-take :
    (count : ℕ) (c ns : List KadNode) → length c ≤ count → fill count c ns ≡ take count (c ++ ns)
unfolding fill
fill-take count c [] h = sym (ap (take count) (append-nil c) ∙ take_all count c h)
fill-take count c (n ∷ ns) h = elim (Bool-cases (ltb (length c) count)) [
  | inl l ↦ rw l (
      fill-take count (c ++ (n ∷ [])) ns (omega (arith, ground_lt l, length-append c (n ∷ [])))
      ∙ ap (take count) (append_assoc c (n ∷ []) ns))
  | inr l ↦ rw l (sym (take-append_full count c (n ∷ ns) (ground arith) ∙ take_all count c h))
]
  where
    ground_lt : ltb (length c) count ≡ true → length c < count
    ground_lt l = ground arith

-- Filling what was filled before.
pub fill_lem :
    (count : ℕ) (xs ns : List KadNode) → fill count (take count xs) ns ≡ take count (xs ++ ns)
fill_lem count xs ns = elim (le_cases (length xs) count) [
  | inl h ↦ rw (take_all count xs h) (fill-take count xs ns h)
  | inr h ↦
      fill-take count (take count xs) ns (omega (arith, length-take count xs))
      ∙ take-append_full count (take count xs) ns (omega (arith, length-take count xs))
      ∙ take_all count (take count xs) (omega (arith, length-take count xs))
      ∙ sym (take-append_full count xs ns h)
]
  where
    le_cases : (a b : ℕ) → (a ≤ b) ⊎ (b ≤ a)
    le_cases a b = ground arith

-- The nodes in the order of the visits, without the limit.
pub visited : List KadBucket → ℕ → ℕ → ℕ → List KadNode
visited bs h zero i = []
visited bs h (suc fuel) i =
    (if leb i h then nodes_at bs (h - i) else [])
    ++ ((if ltb (h + i) kad_id_bit_length then nodes_at bs (h + i) else [])
        ++ visited bs h fuel (suc i))

visited_past :
    (bs : List KadBucket) (h fuel i : ℕ)
    → h < i
    → kad_id_bit_length ≤ h + i
    → visited bs h fuel i ≡ []
unfolding visited
visited_past bs h zero i p q = refl
visited_past bs h (suc fuel) i p q =
    let a : leb i h ≡ false = ground arith in
    let b : ltb (h + i) kad_id_bit_length ≡ false = ground arith in
    rw (a, b) (visited_past bs h fuel (suc i) (omega arith) (omega arith))

maybe_fill :
    (count : ℕ) (t : Bool) (xs ns : List KadNode)
    → (if t then fill count (take count xs) ns else take count xs)
      ≡ take count (xs ++ (if t then ns else []))
maybe_fill count true xs ns = fill_lem count xs ns
maybe_fill count false xs ns = ap (take count) (sym (append-nil xs))

pub spread-visited :
    (bs : List KadBucket) (count h fuel i : ℕ) (xs : List KadNode)
    → spread bs count h fuel i (take count xs) ≡ take count (xs ++ visited bs h fuel i)
unfolding spread visited
spread-visited bs count h zero i xs = ap (take count) (sym (append-nil xs))
spread-visited bs count h (suc fuel) i xs =
    elim (Bool-cases (leb i h || ltb (h + i) kad_id_bit_length)) [
      | inl e ↦
          rw
            (
              e,
              maybe_fill count (leb i h) xs (nodes_at bs (h - i)),
              maybe_fill count (ltb (h + i) kad_id_bit_length)
                  (xs ++ (if leb i h then nodes_at bs (h - i) else [])) (nodes_at bs (h + i)),
            )
            (spread-visited bs count h fuel (suc i) _
              ∙ ap (take count) (
                  append_assoc (xs ++ (if leb i h then nodes_at bs (h - i) else [])) _ _
                  ∙ append_assoc xs _ _))
      | inr e ↦
          let a : leb i h ≡ false = ground arith in
          let b : ltb (h + i) kad_id_bit_length ≡ false = ground arith in
          rw (a, b, visited_past bs h fuel (suc i) (ground arith) (ground arith))
            (ap (take count) (sym (append-nil xs)))
    ]

pub visited-All :
    (P : KadNode → Type 0) (bs : List KadBucket)
    → ((h : ℕ) → All P (nodes_at bs h))
    → (h fuel i : ℕ) → All P (visited bs h fuel i)
unfolding visited
visited-All P bs f h zero i = tt
visited-All P bs f h (suc fuel) i =
    All-append P (if leb i h then nodes_at bs (h - i) else []) _
      (pick (leb i h) (nodes_at bs (h - i)) (f (h - i)))
      (All-append P (if ltb (h + i) kad_id_bit_length then nodes_at bs (h + i) else [])
        (visited bs h fuel (suc i))
        (pick (ltb (h + i) kad_id_bit_length) (nodes_at bs (h + i)) (f (h + i)))
        (visited-All P bs f h fuel (suc i)))
  where
    pick : (t : Bool) (ns : List KadNode) → All P ns → All P (if t then ns else [])
    pick true ns p = p
    pick false ns p = tt

-- A measure that adds up over `++`, such as the length or how often an identifier occurs.
module _ (m : List KadNode → ℕ) (m_nil : m [] ≡ 0)
    (m_append : (ns ms : List KadNode) → m (ns ++ ms) ≡ m ns + m ms) where
  prefix : List KadBucket → ℕ → ℕ
  prefix bs zero = 0
  prefix bs (suc k) = prefix bs k + m (nodes_at bs k)

  prefix_next :
      (bs : List KadBucket) (k l : ℕ) → l ≡ suc k → prefix bs l ≡ prefix bs k + m (nodes_at bs k)
  unfolding prefix
  prefix_next bs k l e = ap (prefix bs) e

  below_part :
      (bs : List KadBucket) (h i : ℕ)
      → m (if leb i h then nodes_at bs (h - i) else []) + prefix bs (h - i) ≡ prefix bs (suc h - i)
  below_part bs h i = elim (Bool-cases (leb i h)) [
    | inl e ↦ rw e (omega (arith, prefix_next bs (h - i) (suc h - i) (ground arith)))
    | inr e ↦
        rw (e, m_nil) (let z : h - i ≡ suc h - i = ground arith in omega (arith, ap (prefix bs) z))
  ]

  above_part :
      (bs : List KadBucket) (h i : ℕ)
      → m (if ltb (h + i) kad_id_bit_length then nodes_at bs (h + i) else [])
          + prefix bs (min (h + i) kad_id_bit_length)
        ≡ prefix bs (min (h + suc i) kad_id_bit_length)
  above_part bs h i = elim (Bool-cases (ltb (h + i) kad_id_bit_length)) [
    | inl e ↦ rw e (
        let l : h + i < kad_id_bit_length = ground arith in
        omega (
          arith,
          ap (prefix bs) (low (h + i) l),
          prefix_next bs (h + i) (min (h + suc i) kad_id_bit_length) (omega arith),
        ))
    | inr e ↦
        rw (e, m_nil)
          (let l : kad_id_bit_length ≤ h + i = ground arith in
            let z : min (h + i) kad_id_bit_length ≡ min (h + suc i) kad_id_bit_length =
              omega arith in
            omega (arith, ap (prefix bs) z))
  ]
    where
      low : (k : ℕ) → k < kad_id_bit_length → min k kad_id_bit_length ≡ k
      low k l = omega arith

  shift : (h i : ℕ) → suc h - suc i ≡ h - i
  shift h i = omega arith

  -- After round `i` what is left is what lies below `h - i` and above `h + i`.
  visited_measure :
      (bs : List KadBucket) (h fuel i : ℕ)
      → h < kad_id_bit_length
      → kad_id_bit_length ≤ fuel + i
      → m (visited bs h fuel i) + prefix bs (min (h + i) kad_id_bit_length)
        ≡ prefix bs (suc h - i) + prefix bs kad_id_bit_length
  unfolding visited prefix
  visited_measure bs h zero i p q =
      let none_below : suc h - i ≡ 0 = omega arith in
      let all_above : min (h + i) kad_id_bit_length ≡ kad_id_bit_length = omega arith in
      omega (arith, m_nil, ap (prefix bs) none_below, ap (prefix bs) all_above)
  visited_measure bs h (suc fuel) i p q = omega (
    arith,
    m_append (if leb i h then nodes_at bs (h - i) else []) (
        (if ltb (h + i) kad_id_bit_length then nodes_at bs (h + i) else [])
        ++ visited bs h fuel (suc i)),
    m_append (if ltb (h + i) kad_id_bit_length then nodes_at bs (h + i) else [])
        (visited bs h fuel (suc i)),
    below_part bs h i,
    above_part bs h i,
    visited_measure bs h fuel (suc i) p (omega arith),
    ap (prefix bs) (shift h i),
  )

  prefix-cons :
      (b : KadBucket) (bs : List KadBucket) (k : ℕ)
      → prefix (b ∷ bs) (suc k) ≡ m b.nodes + prefix bs k
  unfolding prefix nodes_at
  prefix-cons b bs zero = omega arith
  prefix-cons b bs (suc k) = omega (arith, prefix-cons b bs k)

  all_prefix : (bs : List KadBucket) → m (get_all_nodes bs) ≡ prefix bs (length bs)
  unfolding get_all_nodes prefix
  all_prefix [] = m_nil
  all_prefix (b ∷ bs) =
      omega
        (arith, m_append b.nodes (get_all_nodes bs), all_prefix bs, prefix-cons b bs (length bs))

  -- So the visits add up to the whole table.
  pub visited_total :
      (bs : List KadBucket) (h : ℕ)
      → h < kad_id_bit_length
      → length bs ≡ kad_id_bit_length
      → m (nodes_at bs h ++ visited bs h kad_id_bit_length 1) ≡ m (get_all_nodes bs)
  visited_total bs h p l = omega (
    arith,
    m_append (nodes_at bs h) (visited bs h kad_id_bit_length 1),
    visited_measure bs h kad_id_bit_length 1 p (omega arith),
    ap (prefix bs) (start h p),
    ap (prefix bs) (stop h),
    prefix_next bs h (h + 1) (omega arith),
    all_prefix bs,
    ap (prefix bs) l,
  )
    where
      start : (h : ℕ) → h < kad_id_bit_length → min (h + 1) kad_id_bit_length ≡ h + 1
      start h p = omega arith

      stop : (h : ℕ) → suc h - 1 ≡ h
      stop h = omega arith
