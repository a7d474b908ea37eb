-- ===== src/Kad/Bucket/Preserve.antt =====
-- `pushNode` and `removeNode` keep the invariant of a bucket.
use sniffdogsniff.Shared.{ℕ, ◌≤◌, ◌≡◌, refl, ap, true, false, arith, inl, inr, none}
use sniffdogsniff.Shared.{
  List, [], ◌∷◌, ◌++◌, length, length-append, erase_at, All-append, ltb, Bool-cases, Option-cases,
}
use sniffdogsniff.Kad.Id.{KadId}
use sniffdogsniff.Kad.Node.{KadNode, seen_now, reset_stales, increment_stales}
use sniffdogsniff.Kad.Bucket.{
  KadBucket, kad_bucket_max, has_id, update_first, erase_first, find_stalest, place_node, push_node,
  remove_node,
}
use sniffdogsniff.Kad.Bucket.Stalest.{find_stalest-none, find_stalest-Stalest, length-erase_at}
use sniffdogsniff.Kad.Bucket.Counting.{
  count, count-append, count-update_first, count-erase_first, count-erase_at,
}
use sniffdogsniff.Kad.Bucket.Invariant.{
  IsBucket, IsFresh, Waits, Waits-intro, Waits-map, Waits-absent, refill-IsBucket,
  replacement-IsBucket, reorder-IsBucket, length-update_first, length-erase_first, update_first-All,
  erase_first-All,
}
use native.Mathlib.Nat.{le_refl}

abbrev pub refresh : ℕ → KadNode → KadNode
refresh now n = reset_stales (seen_now now n)

pub refresh_lem : (now : ℕ) (n : KadNode) → ((refresh now n).id ≡ n.id) × IsFresh (refresh now n)
unfolding seen_now reset_stales
refresh_lem now n = (refl, omega arith)

found-IsBucket :
    (now : ℕ) (kn : KadNode) (b : KadBucket)
    → IsBucket b
    → IsBucket (record b { nodes = update_first kn.id (refresh now) b.nodes })
found-IsBucket now kn b v = record {
  nodes_max = omega (arith, v.nodes_max, length-update_first kn.id (refresh now) b.nodes);
  replacement_max = v.replacement_max;
  once = λ x.
      rw (count-update_first x kn.id (refresh now) b.nodes (λ n. (refresh_lem now n).0)) (v.once x);
  waits =
      Waits-map b.nodes (update_first kn.id (refresh now) b.nodes) b.replacement_nodes
        (length-update_first kn.id (refresh now) b.nodes)
        (update_first-All IsFresh kn.id (refresh now) b.nodes (λ n h. (refresh_lem now n).1))
        v.waits;
}

pub full_length : (n : ℕ) → n ≤ kad_bucket_max → ltb n kad_bucket_max ≡ false → n ≡ kad_bucket_max
full_length n h e = ground arith

place_node-IsBucket :
    (now : ℕ) (kn : KadNode) (b : KadBucket)
    → IsFresh kn
    → IsBucket b
    → IsBucket (place_node now kn b).1
unfolding place_node
place_node-IsBucket now kn b fresh v = elim (Bool-cases (has_id kn.id b.nodes)) [
  | inl e ↦ rw e (found-IsBucket now kn b v)
  | inr e ↦ elim (Bool-cases (ltb (length b.nodes) kad_bucket_max)) [
    | inl l ↦
        rw (e, l)
          (refill-IsBucket b kn b.nodes v
            (Waits-absent b.nodes b.replacement_nodes v.waits (inl (ground arith))) e (ground arith)
            (λ x. le_refl _))
    | inr l ↦ elim (Option-cases (find_stalest 0 0 none b.nodes)) [
      | inl s ↦
          rw (e, l, s, place_node)
            (replacement-IsBucket now b kn v fresh e (full_length (length b.nodes) v.nodes_max l)
              (find_stalest-none 0 b.nodes s))
      | inr (j, s) ↦
          rw (e, l, s, place_node)
            (let (n, at, st, a) = find_stalest-Stalest j b.nodes s in
              refill-IsBucket b kn (erase_at j b.nodes) v
                (Waits-absent b.nodes b.replacement_nodes v.waits (inr (j, s))) e
                (omega (arith, v.nodes_max, length-erase_at j n b.nodes at))
                (λ x. count-erase_at x j b.nodes))
    ]
  ]
]

-- Pushing a node that is not stale on a well-formed bucket keeps it well formed: at most 20 nodes and
-- 20 replacements, no identifier twice, and replacements only while the bucket is full of nodes that
-- are not stale.
pub push_node-IsBucket :
    (now : ℕ) (kn : KadNode) (b : KadBucket)
    → IsFresh kn
    → IsBucket b
    → IsBucket (push_node now kn b).1
unfolding push_node
push_node-IsBucket now kn b fresh v =
    reorder-IsBucket (place_node now kn b).1 (place_node-IsBucket now kn b fresh v)

pub increment_id : (n : KadNode) → (increment_stales n).id ≡ n.id
unfolding increment_stales
increment_id n = refl

-- A list split into its first replacement and the rest.
promote-IsBucket :
    (id : KadId) (b : KadBucket) (first : KadNode) (rest : List KadNode)
    → IsBucket b
    → has_id id b.nodes ≡ true
    → b.replacement_nodes ≡ first ∷ rest
    → IsBucket
        (record b { nodes = erase_first id b.nodes ++ (first ∷ []); replacement_nodes = rest })
unfolding count
promote-IsBucket id b first rest v e r = record {
  nodes_max = omega (
    arith,
    v.nodes_max,
    length-append (erase_first id b.nodes) (first ∷ []),
    length-erase_first id b.nodes e,
  );
  replacement_max = omega (arith, v.replacement_max, ap length r);
  once = λ x. omega (
    arith,
    v.once x,
    ap (count x) r,
    count-append x (erase_first id b.nodes) (first ∷ []),
    count-erase_first x id b.nodes e,
  );
  waits = rest_waits rest (rw r at v.waits);
}
  where
    rest_waits :
        (qs : List KadNode)
        → Waits b.nodes (first ∷ qs)
        → Waits (erase_first id b.nodes ++ (first ∷ [])) qs
    rest_waits qs w =
        Waits-intro _ qs
          (omega (
            arith,
            w.0,
            length-append (erase_first id b.nodes) (first ∷ []),
            length-erase_first id b.nodes e,
          ))
          (All-append IsFresh (erase_first id b.nodes) (first ∷ [])
            (erase_first-All IsFresh id b.nodes w.1) (w.2.0, tt))
          w.2.1

marked-IsBucket :
    (id : KadId) (b : KadBucket)
    → IsBucket b
    → b.replacement_nodes ≡ []
    → IsBucket (record b { nodes = update_first id increment_stales b.nodes })
marked-IsBucket id b v r = record {
  nodes_max = omega (arith, v.nodes_max, length-update_first id increment_stales b.nodes);
  replacement_max = v.replacement_max;
  once = λ x. rw (count-update_first x id increment_stales b.nodes increment_id) (v.once x);
  waits = rw r tt;
}

-- Removing from a well-formed bucket keeps it well formed.
pub remove_node-IsBucket : (id : KadId) (b : KadBucket) → IsBucket b → IsBucket (remove_node id b).1
remove_node-IsBucket id b v = elim (Bool-cases (has_id id b.nodes)) [
  | inl e ↦ present b.replacement_nodes refl e
  | inr e ↦ unfold remove_node in rw e v
]
  where
    present :
        (rs : List KadNode)
        → b.replacement_nodes ≡ rs
        → has_id id b.nodes ≡ true
        → IsBucket (remove_node id b).1
    present [] r e = unfold remove_node in rw (e, r) (marked-IsBucket id b v r)
    present (first ∷ rest) r e =
        unfold remove_node in
        rw (e, r) (reorder-IsBucket _ (promote-IsBucket id b first rest v e r))
