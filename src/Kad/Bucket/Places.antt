-- ===== src/Kad/Bucket/Places.antt =====
-- What holds of the identifiers in a bucket still holds after a push or a removal.
use sniffdogsniff.Shared.{ℕ, zero, suc, ◌≡◌, refl, true, inl, inr, none}
use sniffdogsniff.Shared.{
  List, [], ◌∷◌, length, erase_at, drop_last, All, All-append, sort-All, ltb, Bool-cases,
  Option-cases,
}
use sniffdogsniff.Kad.Id.{KadId}
use sniffdogsniff.Kad.Node.{KadNode, seen_now, increment_stales, node_before}
use sniffdogsniff.Kad.Bucket.{
  KadBucket, kad_bucket_max, has_id, erase_first, reorder, find_stalest, push_replacement,
  place_node, push_node, remove_node,
}
use sniffdogsniff.Kad.Bucket.Invariant.{
  update_first-All, erase_first-All, drop_last-All, seen_now_id,
}
use sniffdogsniff.Kad.Bucket.Preserve.{refresh, refresh_lem, increment_id}
use mathlib.Core.Path.{subst, sym}

module _ (P : KadId → Type 0) where
  abbrev pub Both : KadBucket → Type 0
  Both b = All (λ n. P n.id) b.nodes × All (λ n. P n.id) b.replacement_nodes

  same_id :
      (f : KadNode → KadNode)
      → ((n : KadNode) → (f n).id ≡ n.id)
      → (n : KadNode) → P n.id
      → P (f n).id
  same_id f h n p = subst P (sym (h n)) p

  erase_at-All :
      (i : ℕ) (ns : List KadNode) → All (λ n. P n.id) ns → All (λ n. P n.id) (erase_at i ns)
  erase_at-All i [] h = tt
  erase_at-All zero (n ∷ ns) h = h.1
  erase_at-All (suc i) (n ∷ ns) h = (h.0, erase_at-All i ns h.1)

  reorder-Both : (b : KadBucket) → Both b → Both (reorder b)
  unfolding reorder
  reorder-Both b h = (
    sort-All node_before (λ n. P n.id) b.nodes h.0,
    sort-All node_before (λ n. P n.id) b.replacement_nodes h.1,
  )

  push_replacement-All :
      (now : ℕ) (kn : KadNode) (rs : List KadNode)
      → P kn.id
      → All (λ n. P n.id) rs
      → All (λ n. P n.id) (push_replacement now kn rs).1
  unfolding push_replacement
  push_replacement-All now kn rs p h = elim (Bool-cases (has_id kn.id rs)) [
    | inl e ↦ rw e (
        update_first-All (λ n. P n.id) kn.id (seen_now now) rs
          (same_id (seen_now now) (seen_now_id now)) h)
    | inr e ↦ elim (Bool-cases (ltb (length rs) kad_bucket_max)) [
      | inl l ↦ rw (e, l) (All-append (λ n. P n.id) rs (kn ∷ []) h (p, tt))
      | inr l ↦
          rw (e, l)
            (All-append (λ n. P n.id) (drop_last rs) (kn ∷ []) (drop_last-All (λ n. P n.id) rs h)
              (p, tt))
    ]
  ]

  place_node-Both :
      (now : ℕ) (kn : KadNode) (b : KadBucket) → P kn.id → Both b → Both (place_node now kn b).1
  unfolding place_node
  place_node-Both now kn b p h = elim (Bool-cases (has_id kn.id b.nodes)) [
    | inl e ↦ rw e (
      update_first-All (λ n. P n.id) kn.id (refresh now) b.nodes
          (same_id (refresh now) (λ n. (refresh_lem now n).0)) h.0,
      h.1,
    )
    | inr e ↦ elim (Bool-cases (ltb (length b.nodes) kad_bucket_max)) [
      | inl l ↦ rw (e, l) (All-append (λ n. P n.id) b.nodes (kn ∷ []) h.0 (p, tt), h.1)
      | inr l ↦ elim (Option-cases (find_stalest 0 0 none b.nodes)) [
        | inl s ↦
            rw (e, l, s, place_node) (h.0, push_replacement-All now kn b.replacement_nodes p h.1)
        | inr (j, s) ↦
            rw (e, l, s, place_node)
              (
                All-append (λ n. P n.id) (erase_at j b.nodes) (kn ∷ []) (erase_at-All j b.nodes h.0)
                    (p, tt),
                h.1,
              )
      ]
    ]
  ]

  pub push_node-Both :
      (now : ℕ) (kn : KadNode) (b : KadBucket) → P kn.id → Both b → Both (push_node now kn b).1
  unfolding push_node
  push_node-Both now kn b p h = reorder-Both (place_node now kn b).1 (place_node-Both now kn b p h)

  pub remove_node-Both : (id : KadId) (b : KadBucket) → Both b → Both (remove_node id b).1
  remove_node-Both id b h = elim (Bool-cases (has_id id b.nodes)) [
    | inl e ↦ present b.replacement_nodes refl e h.1
    | inr e ↦ unfold remove_node in rw e h
  ]
    where
      present :
          (rs : List KadNode)
          → b.replacement_nodes ≡ rs
          → has_id id b.nodes ≡ true
          → All (λ n. P n.id) rs
          → Both (remove_node id b).1
      present [] r e k =
          unfold remove_node in
          rw (e, r)
            (
              update_first-All (λ n. P n.id) id increment_stales b.nodes
                  (same_id increment_stales increment_id) h.0,
              rw r tt,
            )
      present (first ∷ rest) r e k =
          unfold remove_node in
          rw (e, r)
            (reorder-Both _ (
              All-append (λ n. P n.id) (erase_first id b.nodes) (first ∷ [])
                  (erase_first-All (λ n. P n.id) id b.nodes h.0) (k.0, tt),
              k.1,
            ))
