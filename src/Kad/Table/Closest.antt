-- ===== src/Kad/Table/Closest.antt =====
-- What `getClosestTo` returns.
use sniffdogsniff.Shared.{
  ℕ, zero, suc, ◌≤◌, ◌<◌, ◌≡◌, refl, ap, ◌∙◌, true, false, arith, inl, inr, ◌⊎◌, none, some, min,
}
use sniffdogsniff.Shared.{
  List, [], ◌∷◌, ◌++◌, length, length-append, length-take, length-sort, get_elem?, take, take_all,
  sort, sort-IsSorted, IsSorted, All, All-append, All-take, ltb, ◌==◌, if◌then◌else◌, Bool-cases,
}
use sniffdogsniff.Kad.Id.{KadId, IsKadId, kad_id_bit_length, operator_minus, operator_eq, value}
use sniffdogsniff.Kad.Id.Value.{operator_lt-value, operator_minus-IsKadId}
use sniffdogsniff.Kad.Node.{KadNode}
use sniffdogsniff.Kad.Bucket.{KadBucket}
use sniffdogsniff.Kad.Bucket.Counting.{count, count-append, count-sort}
use sniffdogsniff.Kad.Table.{
  KadTable, nodes_at, fill, spread, closer, get_closest_to, get_all_nodes,
}
use sniffdogsniff.Kad.Table.Invariant.{IsTable, Placed, height_total}
use sniffdogsniff.Kad.Table.Lookup.{get_all_nodes_once}
use sniffdogsniff.Kad.Table.Visit.{fill_lem, visited, spread-visited, visited_total, visited-All}

-- For nodes with identifiers of 16 bytes the order is that of the distance.
pub closer-value :
    (id : KadId) (a b : KadNode)
    → IsKadId id
    → IsKadId a.id
    → IsKadId b.id
    → closer id a b ≡ ltb (value (operator_minus a.id id)) (value (operator_minus b.id id))
unfolding closer
closer-value id a b hi ha hb =
    rw
      (
        operator_lt-value (operator_minus a.id id) (operator_minus b.id id)
            (operator_minus-IsKadId a.id id ha hi) (operator_minus-IsKadId b.id id hb hi),
        closer,
      )
      (test (value (operator_minus a.id id)) (value (operator_minus b.id id)))
  where
    test :
        (v w : ℕ)
        → (elim (if v == w then none else some (ltb v w)) [ none ↦ false | some lt ↦ lt ]) ≡ ltb v w
    test v w = ground arith

count-take-le : (x : KadId) (n : ℕ) (ns : List KadNode) → count x (take n ns) ≤ count x ns
unfolding count
count-take-le x zero ns = omega arith
count-take-le x (suc n) [] = omega arith
count-take-le x (suc n) (m ∷ ms) = omega (arith, count-take-le x n ms)

-- The nodes before the sort: the first `count` of the visited ones.
gathered :
    (bs : List KadBucket) (n h : ℕ)
    → spread bs n h kad_id_bit_length 1 (fill n [] (nodes_at bs h))
      ≡ take n (nodes_at bs h ++ visited bs h kad_id_bit_length 1)
gathered bs n h =
    ap (spread bs n h kad_id_bit_length 1)
      (ap (λ c. fill n c (nodes_at bs h)) (empty n) ∙ fill_lem n [] (nodes_at bs h))
    ∙ spread-visited bs n h kad_id_bit_length 1 (nodes_at bs h)
  where
    empty : (k : ℕ) → ◌≡◌ {A = List KadNode} [] (take k [])
    empty zero = refl
    empty (suc k) = refl

-- What the answer `r` has to do with the nodes `all` of the table.
pub record Answer (id : KadId) (count' : ℕ) (all r : List KadNode) : Type 0 where
  pub sorted : IsSorted (closer id) r
  pub size : length r ≡ min count' (length all)
  pub member : (x : KadId) → count x r ≤ count x all
  pub distinct : (x : KadId) → count x r ≤ 1
  pub complete : (count' < length all) ⊎ ((x : KadId) → count x r ≡ count x all)

All-first :
    (s : KadId) (h : ℕ) (ns : List KadNode)
    → All (λ n. Placed s h n.id) ns
    → All (λ n. IsKadId n.id) ns
All-first s h [] p = tt
All-first s h (n ∷ ns) p = (p.0.0, All-first s h ns p.1)

nodes_at_each :
    (bs : List KadBucket) (k : ℕ)
    → ((b : KadBucket) → get_elem? bs k ≡ some b → All (λ n. IsKadId n.id) b.nodes)
    → All (λ n. IsKadId n.id) (nodes_at bs k)
unfolding nodes_at
nodes_at_each [] k f = tt
nodes_at_each (b ∷ bs) zero f = f b refl
nodes_at_each (b ∷ bs) (suc k) f = nodes_at_each bs k f

nodes_at-All : (t : KadTable) → IsTable t → (h : ℕ) → All (λ n. IsKadId n.id) (nodes_at t.buckets h)
nodes_at-All t v h =
    nodes_at_each t.buckets h (λ b e. All-first t.self_node.id h b.nodes (v.holds h b e).1.0)

get_all_nodes_each :
    (P : KadNode → Type 0) (bs : List KadBucket)
    → ((h : ℕ) (b : KadBucket) → get_elem? bs h ≡ some b → All P b.nodes)
    → All P (get_all_nodes bs)
unfolding get_all_nodes
get_all_nodes_each P [] v = tt
get_all_nodes_each P (b ∷ bs) v =
    All-append P b.nodes (get_all_nodes bs) (v 0 b refl)
      (get_all_nodes_each P bs (λ h c e. v (suc h) c e))

pub get_all_nodes-All :
    (t : KadTable) → IsTable t → All (λ n. IsKadId n.id) (get_all_nodes t.buckets)
get_all_nodes-All t v =
    get_all_nodes_each (λ n. IsKadId n.id) t.buckets
      (λ h b e. All-first t.self_node.id h b.nodes (v.holds h b e).1.0)

closer_asym :
    (id : KadId)
    → IsKadId id
    → (a b : KadNode) → IsKadId a.id
    → IsKadId b.id
    → closer id a b ≡ true
    → closer id b a ≡ false
closer_asym id hi a b ha hb h =
    ground (arith, closer-value id a b hi ha hb, closer-value id b a hi hb ha)

closer_trans :
    (id : KadId)
    → IsKadId id
    → (a b c : KadNode) → IsKadId a.id
    → IsKadId b.id
    → IsKadId c.id
    → closer id b a ≡ false
    → closer id c b ≡ false
    → closer id c a ≡ false
closer_trans id hi a b c ha hb hc h k = ground (
  arith,
  closer-value id b a hi hb ha,
  closer-value id c b hi hc hb,
  closer-value id c a hi hc ha,
)

count_nil : (x : KadId) → count x [] ≡ 0
unfolding count
count_nil x = refl

-- Asked for `count` nodes, a well-formed table returns that many different nodes of its own, or all of
-- them if it has no more, sorted by their distance to the identifier, which is not that of the table.
-- They need not be the closest nodes of the table.
pub get_closest_to-Answer :
    (t : KadTable) (id : KadId) (n : ℕ)
    → IsTable t
    → IsKadId id
    → operator_eq t.self_node.id id ≡ false
    → (r : List KadNode) × (get_closest_to t id n ≡ some r)
      × Answer id n (get_all_nodes t.buckets) r
unfolding get_closest_to
get_closest_to-Answer t id n v hi e =
    let (h, eq, lt) = height_total t.self_node.id id v.own hi e in
    let seen = nodes_at t.buckets h ++ visited t.buckets h kad_id_bit_length 1 in
    let total_count =
      λ (x : KadId). visited_total (count x) (count_nil x) (count-append x) t.buckets h lt v.size in
    let total = visited_total length refl length-append t.buckets h lt v.size in
    (
      sort (closer id) (take n seen),
      rw (e, eq) (ap (λ ns. some (sort (closer id) ns)) (gathered t.buckets n h)),
      record {
        sorted =
            sort-IsSorted (λ m. IsKadId m.id) (closer id) (closer_asym id hi) (closer_trans id hi)
              (take n seen)
              (All-take (λ m. IsKadId m.id) n seen
                (All-append (λ m. IsKadId m.id) (nodes_at t.buckets h) _ (nodes_at-All t v h)
                  (visited-All (λ m. IsKadId m.id) t.buckets (nodes_at-All t v) h kad_id_bit_length
                    1)));
        size = length-sort (closer id) (take n seen) ∙ length-take n seen ∙ ap (min n) total;
        member = λ x.
            omega (
              arith,
              count-sort x (closer id) (take n seen),
              count-take-le x n seen,
              total_count x,
            );
        distinct = λ x. omega (
          arith,
          count-sort x (closer id) (take n seen),
          count-take-le x n seen,
          total_count x,
          get_all_nodes_once t v x,
        );
        complete = elim (Bool-cases (ltb n (length (get_all_nodes t.buckets)))) [
          | inl less ↦ inl (ground arith)
          | inr le ↦ inr (λ x.
              count-sort x (closer id) (take n seen)
              ∙ ap (count x) (take_all n seen (ground (arith, total)))
              ∙ total_count x)
        ];
      },
    )
