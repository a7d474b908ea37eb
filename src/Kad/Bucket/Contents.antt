-- ===== src/Kad/Bucket/Contents.antt =====
-- What the two lists of a bucket hold after a push, node by node.
use sniffdogsniff.Shared.{
  ℕ, zero, suc, ◌≤◌, ◌<◌, ◌≡◌, ◌⊎◌, refl, sym, ap, inl, inr, Bool, true, false, none, some, List,
  [], ◌∷◌, ◌++◌, map, length, get_elem?, erase_at, drop_last, All, sort, ltb, if◌then◌else◌,
  Bool-cases, Option-cases, arith,
}
use sniffdogsniff.Kad.Id.{KadId, operator_eq}
use sniffdogsniff.Kad.Node.{KadNode, seen_now, reset_stales, node_before}
use sniffdogsniff.Kad.Bucket.{
  KadBucket, kad_bucket_max, stales_thr, has_id, update_first, reorder, find_stalest,
  push_replacement, place_node, push_node,
}
use sniffdogsniff.Kad.Bucket.Stalest.{find_stalest-Stalest, find_stalest-none}
use sniffdogsniff.Kad.Bucket.Preserve.{full_length}
use sniffdogsniff.Kad.Bucket.Counting.{count, tally, count_present}
use sniffdogsniff.Kad.Bucket.Invariant.{IsBucket}

-- A change of the nodes with the identifier.
abbrev pub change : KadId → (KadNode → KadNode) → KadNode → KadNode
change id f n = if operator_eq n.id id then f n else n

change_absent :
    (id : KadId) (f : KadNode → KadNode) (ns : List KadNode)
    → has_id id ns ≡ false
    → map (change id f) ns ≡ ns
unfolding has_id
change_absent id f [] h = refl
change_absent id f (n ∷ ns) h = elim (Bool-cases (operator_eq n.id id)) [
  | inl e ↦ let h' : true ≡ false = rw e at h in absurd (cc)
  | inr e ↦ rw e (ap (λ ms. n ∷ ms) (change_absent id f ns (rw e at h)))
]

absent_rest :
    (id : KadId) (n : KadNode) (ns : List KadNode)
    → count id (n ∷ ns) ≤ 1
    → operator_eq n.id id ≡ true
    → has_id id ns ≡ false
unfolding count
absent_rest id n ns le e = absent (has_id id ns) refl
  where
    absent : (b : Bool) → has_id id ns ≡ b → b ≡ false
    absent false h = refl
    absent true h = absurd (omega (arith, count_present id ns h, ap tally e))

count_rest : (id : KadId) (n : KadNode) (ns : List KadNode) → count id ns ≤ count id (n ∷ ns)
unfolding count
count_rest id n ns = omega arith

-- The first one is the only one.
pub update_first-change :
    (id : KadId) (f : KadNode → KadNode) (ns : List KadNode)
    → count id ns ≤ 1
    → update_first id f ns ≡ map (change id f) ns
unfolding update_first
update_first-change id f [] le = refl
update_first-change id f (n ∷ ns) le = elim (Bool-cases (operator_eq n.id id)) [
  | inl e ↦ rw e (ap (λ ms. f n ∷ ms) (sym (change_absent id f ns (absent_rest id n ns le e))))
  | inr e ↦
      rw e (ap (λ ms. n ∷ ms) (update_first-change id f ns (omega (arith, count_rest id n ns))))
]

-- The list of the replacements after a push that leaves the nodes as they are: the node is seen, is
-- appended while there is room, or takes the place of the last of the 20.
pub data Queued (now : ℕ) (kn : KadNode) (rs rs' : List KadNode) : Type 0 where
  seen :
      has_id kn.id rs ≡ true
      → rs' ≡ map (change kn.id (λ n. record n { last_seen = now })) rs
      → Queued now kn rs rs'
  appended :
      has_id kn.id rs ≡ false
      → length rs < kad_bucket_max
      → rs' ≡ rs ++ (kn ∷ [])
      → Queued now kn rs rs'
  bumped :
      (front : List KadNode) (last : KadNode)
      → has_id kn.id rs ≡ false
      → length rs ≡ kad_bucket_max
      → rs ≡ front ++ (last ∷ [])
      → rs' ≡ front ++ (kn ∷ [])
      → Queued now kn rs rs'

-- The nodes after a push, and its effect on the replacements, but for the order.
pub data Placed (now : ℕ) (kn : KadNode) (b : KadBucket) (ns rs : List KadNode) : Type 0 where
  found :
      has_id kn.id b.nodes ≡ true
      → ns ≡ map (change kn.id (λ n. record n { last_seen = now; stales = 0 })) b.nodes
      → rs ≡ b.replacement_nodes
      → Placed now kn b ns rs
  added :
      has_id kn.id b.nodes ≡ false
      → length b.nodes < kad_bucket_max
      → ns ≡ b.nodes ++ (kn ∷ [])
      → rs ≡ b.replacement_nodes
      → Placed now kn b ns rs
  replaced :
      (i : ℕ) (old : KadNode)
      → has_id kn.id b.nodes ≡ false
      → length b.nodes ≡ kad_bucket_max
      → get_elem? b.nodes i ≡ some old
      → stales_thr ≤ old.stales
      → All (λ n. n.stales ≤ old.stales ⊎ n.stales < stales_thr) b.nodes
      → ns ≡ erase_at i b.nodes ++ (kn ∷ [])
      → rs ≡ b.replacement_nodes
      → Placed now kn b ns rs
  waiting :
      has_id kn.id b.nodes ≡ false
      → length b.nodes ≡ kad_bucket_max
      → All (λ n. n.stales < stales_thr) b.nodes
      → ns ≡ b.nodes
      → Queued now kn b.replacement_nodes rs
      → Placed now kn b ns rs

last_of :
    (n : ℕ) (ns : List KadNode)
    → length ns ≡ suc n
    → (last : KadNode) × (ns ≡ drop_last ns ++ (last ∷ []))
last_of n [] h = absurd (omega arith)
last_of n (x ∷ []) h = (x, refl)
last_of zero (x ∷ y ∷ ys) h = absurd (omega arith)
last_of (suc n) (x ∷ y ∷ ys) h =
    let (last, e) = last_of n (y ∷ ys) (omega arith) in (last, ap (λ l. x ∷ l) e)

push_replacement-Queued :
    (now : ℕ) (kn : KadNode) (b : KadBucket)
    → IsBucket b
    → Queued now kn b.replacement_nodes (push_replacement now kn b.replacement_nodes).1
unfolding push_replacement seen_now
push_replacement-Queued now kn b v =
    let rs = b.replacement_nodes in
    elim (Bool-cases (has_id kn.id rs)) [
      | inl e ↦
          rw e (seen e (update_first-change kn.id (seen_now now) rs (omega (arith, v.once kn.id))))
      | inr e ↦ elim (Bool-cases (ltb (length rs) kad_bucket_max)) [
        | inl l ↦ rw (e, l) (appended e (ground arith) refl)
        | inr l ↦
            let full = full_length (length rs) v.replacement_max l in
            let (last, w) = last_of 19 rs full in
            rw (e, l) (bumped (drop_last rs) last e full w refl)
      ]
    ]

place_node-Placed :
    (now : ℕ) (kn : KadNode) (b : KadBucket)
    → IsBucket b
    → Placed now kn b (place_node now kn b).1.nodes (place_node now kn b).1.replacement_nodes
unfolding place_node seen_now reset_stales
place_node-Placed now kn b v = elim (Bool-cases (has_id kn.id b.nodes)) [
  | inl e ↦ rw e (
      found e
        (update_first-change kn.id (λ n. reset_stales (seen_now now n)) b.nodes
          (omega (arith, v.once kn.id)))
        refl)
  | inr e ↦ elim (Bool-cases (ltb (length b.nodes) kad_bucket_max)) [
    | inl l ↦ rw (e, l) (added e (ground arith) refl refl)
    | inr l ↦ elim (Option-cases (find_stalest 0 0 none b.nodes)) [
      | inl s ↦
          rw (e, l, s, place_node)
            (waiting e (full_length (length b.nodes) v.nodes_max l) (find_stalest-none 0 b.nodes s)
              refl (push_replacement-Queued now kn b v))
      | inr (j, s) ↦
          rw (e, l, s, place_node)
            (let (n, at, st, a) = find_stalest-Stalest j b.nodes s in
              replaced j n e (full_length (length b.nodes) v.nodes_max l) at st a refl refl)
    ]
  ]
]

-- The bucket holds these lists, each in the order of the time last seen.
abbrev pub Holds : KadBucket → List KadNode → List KadNode → Type 0
Holds b ns rs = (b.nodes ≡ sort node_before ns) × (b.replacement_nodes ≡ sort node_before rs)

pub push_node-Placed :
    (now : ℕ) (kn : KadNode) (b : KadBucket)
    → IsBucket b
    → (ns rs : List KadNode) × Placed now kn b ns rs × Holds (push_node now kn b).1 ns rs
unfolding push_node reorder
push_node-Placed now kn b v =
    let c = (place_node now kn b).1 in
    (c.nodes, c.replacement_nodes, place_node-Placed now kn b v, (refl, refl))
