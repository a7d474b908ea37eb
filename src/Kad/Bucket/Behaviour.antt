-- ===== src/Kad/Bucket/Behaviour.antt =====
-- What `pushNode`, `removeNode` and `hasNode` answer, and what the bucket holds afterwards.
use sniffdogsniff.Shared.{
  ℕ, ◌+◌, ◌≤◌, ◌<◌, ◌≡◌, refl, ap, ◌∙◌, Bool, true, false, ◌||◌, arith, inl, inr, ◌⊎◌, none,
}
use sniffdogsniff.Shared.{
  List, [], ◌∷◌, ◌++◌, map, length, erase_at, drop_last, All, sort, sort-IsSorted, IsSorted,
  All-trivial, ltb, Bool-cases, Option-cases,
}
use sniffdogsniff.Kad.Id.{KadId, operator_eq}
use sniffdogsniff.Kad.Id.Value.{operator_eq_self}
use sniffdogsniff.Kad.Node.{KadNode, seen_now, increment_stales, node_before}
use sniffdogsniff.Kad.Bucket.{
  KadBucket, kad_bucket_max, stales_thr, has_id, update_first, erase_first, reorder, find_stalest,
  push_replacement, place_node, push_node, remove_node,
}
use sniffdogsniff.Kad.Bucket.Stalest.{find_stalest-Stalest, find_stalest-none}
use sniffdogsniff.Kad.Bucket.Preserve.{refresh, refresh_lem, full_length, increment_id}
use sniffdogsniff.Kad.Bucket.Counting.{
  count, tally, count-append, count-sort, count_absent, count_present, has_id-count,
  count-update_first, count-erase_first, count-erase_at_found,
}
use sniffdogsniff.Kad.Bucket.Contents.{change, update_first-change, Placed, Holds, push_node-Placed}
use sniffdogsniff.Kad.Bucket.Invariant.{IsBucket, push_replacement-fst, seen_now_id}

-- Both lists are in order of the time last seen, the latest first.
pub record IsOrdered (b : KadBucket) : Type 0 where
  pub nodes : IsSorted node_before b.nodes
  pub replacements : IsSorted node_before b.replacement_nodes

before_asym :
    (a b : KadNode) → Unit {0} → Unit {0} → node_before a b ≡ true → node_before b a ≡ false
unfolding node_before
before_asym a b _ _ h = ground arith

before_trans :
    (a b c : KadNode)
    → Unit {0}
    → Unit {0}
    → Unit {0}
    → node_before b a ≡ false
    → node_before c b ≡ false
    → node_before c a ≡ false
unfolding node_before
before_trans a b c _ _ _ h k = ground arith

reorder-IsOrdered : (b : KadBucket) → IsOrdered (reorder b)
unfolding reorder
reorder-IsOrdered b = record {
  nodes =
      sort-IsSorted (λ n. Unit {0}) node_before before_asym before_trans b.nodes
        (All-trivial b.nodes);
  replacements =
      sort-IsSorted (λ n. Unit {0}) node_before before_asym before_trans b.replacement_nodes
        (All-trivial b.replacement_nodes);
}

-- After a push both lists are in order of the time last seen.
pub push_node-IsOrdered :
    (now : ℕ) (kn : KadNode) (b : KadBucket) → IsOrdered (push_node now kn b).1
unfolding push_node
push_node-IsOrdered now kn b = reorder-IsOrdered (place_node now kn b).1

pub has_id-sort : (x : KadId) (ns : List KadNode) → has_id x (sort node_before ns) ≡ has_id x ns
has_id-sort x ns = elim (Bool-cases (has_id x ns)) [
  | inl e ↦ rw e (
      has_id-count x (sort node_before ns)
        (omega (arith, count-sort x node_before ns, count_present x ns e)))
  | inr e ↦ rw e (absent (has_id x (sort node_before ns)) refl e)
]
  where
    absent : (b : Bool) → has_id x (sort node_before ns) ≡ b → has_id x ns ≡ false → b ≡ false
    absent false e' e = refl
    absent true e' e = absurd (
        omega (
          arith,
          count-sort x node_before ns,
          count_absent x ns e,
          count_present x (sort node_before ns) e',
        ))

pub has_id-append :
    (x : KadId) (ns ms : List KadNode) → has_id x (ns ++ ms) ≡ (has_id x ns || has_id x ms)
unfolding has_id
has_id-append x [] ms = refl
has_id-append x (n ∷ ns) ms = ground (arith, has_id-append x ns ms)

pub has_id-update_first :
    (x id : KadId) (f : KadNode → KadNode) (ns : List KadNode)
    → ((n : KadNode) → (f n).id ≡ n.id)
    → has_id x (update_first id f ns) ≡ has_id x ns
unfolding has_id update_first
has_id-update_first x id f [] h = refl
has_id-update_first x id f (n ∷ ns) h = elim (Bool-cases (operator_eq n.id id)) [
  | inl e ↦ rw (e, h n)
  | inr e ↦ rw (e, has_id-update_first x id f ns h)
]

-- The same identifiers, as often.
abbrev pub Same : List KadNode → List KadNode → Type 0
Same ns ms = (x : KadId) → count x ms ≡ count x ns

-- The four things that a push may do: the node was there, it is added, it takes the place of a stale
-- one, or it waits.
pub data Pushed (kn : KadNode) (b : KadBucket) (found : Bool) (b' : KadBucket) : Type 0 where
  refreshed :
      has_id kn.id b.nodes ≡ true
      → found ≡ true
      → Same b.nodes b'.nodes
      → Same b.replacement_nodes b'.replacement_nodes
      → Pushed kn b found b'
  added :
      has_id kn.id b.nodes ≡ false
      → length b.nodes < kad_bucket_max
      → found ≡ false
      → ((x : KadId) → count x b'.nodes ≡ count x b.nodes + tally (operator_eq kn.id x))
      → Same b.replacement_nodes b'.replacement_nodes
      → Pushed kn b found b'
  replaced :
      (old : KadNode)
      → has_id kn.id b.nodes ≡ false
      → length b.nodes ≡ kad_bucket_max
      → found ≡ false
      → stales_thr ≤ old.stales
      → All (λ n. n.stales ≤ old.stales ⊎ n.stales < stales_thr) b.nodes
      → ((x : KadId)
          → count x b'.nodes + tally (operator_eq old.id x)
            ≡ count x b.nodes + tally (operator_eq kn.id x))
      → Same b.replacement_nodes b'.replacement_nodes
      → Pushed kn b found b'
  waiting :
      has_id kn.id b.nodes ≡ false
      → length b.nodes ≡ kad_bucket_max
      → All (λ n. n.stales < stales_thr) b.nodes
      → found ≡ has_id kn.id b.replacement_nodes
      → Same b.nodes b'.nodes
      → has_id kn.id b'.replacement_nodes ≡ true
      → Pushed kn b found b'

Same-reorder :
    (b : KadBucket)
    → Same b.nodes (reorder b).nodes × Same b.replacement_nodes (reorder b).replacement_nodes
unfolding reorder
Same-reorder b =
    (λ x. count-sort x node_before b.nodes, λ x. count-sort x node_before b.replacement_nodes)

push_replacement_has :
    (now : ℕ) (kn : KadNode) (rs : List KadNode)
    → has_id kn.id (push_replacement now kn rs).1 ≡ true
unfolding push_replacement has_id
push_replacement_has now kn rs = elim (Bool-cases (has_id kn.id rs)) [
  | inl e ↦ rw (e, has_id-update_first kn.id kn.id (seen_now now) rs (seen_now_id now)) e
  | inr e ↦ elim (Bool-cases (ltb (length rs) kad_bucket_max)) [
    | inl l ↦ rw (e, l, has_id-append kn.id rs (kn ∷ [])) (last_has (has_id kn.id rs))
    | inr l ↦
        rw (e, l, has_id-append kn.id (drop_last rs) (kn ∷ []))
          (last_has (has_id kn.id (drop_last rs)))
  ]
]
  where
    last_has : (b : Bool) → (b || has_id kn.id (kn ∷ [])) ≡ true
    last_has b = ground (arith, operator_eq_self kn.id)

place_node-Pushed :
    (now : ℕ) (kn : KadNode) (b : KadBucket)
    → IsBucket b
    → Pushed kn b (place_node now kn b).0 (place_node now kn b).1
unfolding place_node count
place_node-Pushed now kn b v = elim (Bool-cases (has_id kn.id b.nodes)) [
  | inl e ↦ rw e (
      refreshed e refl
        (λ x. count-update_first x kn.id (refresh now) b.nodes (λ n. (refresh_lem now n).0))
        (λ x. refl))
  | inr e ↦ elim (Bool-cases (ltb (length b.nodes) kad_bucket_max)) [
    | inl l ↦
        rw (e, l)
          (added e (ground arith) refl (λ x. omega (arith, count-append x b.nodes (kn ∷ [])))
            (λ x. refl))
    | inr l ↦ elim (Option-cases (find_stalest 0 0 none b.nodes)) [
      | inl s ↦
          rw (e, l, s, place_node)
            (waiting e (full_length (length b.nodes) v.nodes_max l) (find_stalest-none 0 b.nodes s)
              (push_replacement-fst now kn b.replacement_nodes) (λ x. refl)
              (push_replacement_has now kn b.replacement_nodes))
      | inr (j, s) ↦
          rw (e, l, s, place_node)
            (let (n, at, st, a) = find_stalest-Stalest j b.nodes s in
              replaced n e (full_length (length b.nodes) v.nodes_max l) refl st a
                (λ x. omega (
                  arith,
                  count-append x (erase_at j b.nodes) (kn ∷ []),
                  count-erase_at_found x j n b.nodes at,
                ))
                (λ x. refl))
    ]
  ]
]

Pushed-reorder :
    (kn : KadNode) (b : KadBucket) (found : Bool) (c : KadBucket)
    → Pushed kn b found c
    → Pushed kn b found (reorder c)
Pushed-reorder kn b f c (refreshed e r s t) =
    refreshed e r (λ x. (Same-reorder c).0 x ∙ s x) (λ x. (Same-reorder c).1 x ∙ t x)
Pushed-reorder kn b f c (added e l r s t) =
    added e l r (λ x. (Same-reorder c).0 x ∙ s x) (λ x. (Same-reorder c).1 x ∙ t x)
Pushed-reorder kn b f c (replaced old e l r st a s t) =
    replaced old e l r st a (λ x. omega (arith, (Same-reorder c).0 x, s x))
      (λ x. (Same-reorder c).1 x ∙ t x)
Pushed-reorder kn b f c (waiting e l a r s t) =
    waiting e l a r (λ x. (Same-reorder c).0 x ∙ s x)
      (unfold reorder in (has_id-sort kn.id c.replacement_nodes ∙ t))

-- Each push on a well-formed bucket does one of four things. It refreshes a node that is there, which
-- gets the time of the push and no stales; it adds the node while there is room; it puts the node in
-- place of the stalest node past the threshold; or the node waits among the replacements, where it gets
-- the time of the push if it is there, and the last of them makes room when they are 20. All other
-- nodes stay as they are, and both lists are sorted. The answer tells whether the node was in the list
-- that was changed.
pub push_node-Pushed :
    (now : ℕ) (kn : KadNode) (b : KadBucket)
    → IsBucket b
    → Pushed kn b (push_node now kn b).0 (push_node now kn b).1
      × ((ns rs : List KadNode) × Placed now kn b ns rs × Holds (push_node now kn b).1 ns rs)
unfolding push_node
push_node-Pushed now kn b v = (
  Pushed-reorder kn b (place_node now kn b).0 (place_node now kn b).1
      (place_node-Pushed now kn b v),
  push_node-Placed now kn b v,
)

-- The three things that a removal may do: nothing, mark the node, or let the first replacement take
-- its place.
pub data Removed (id : KadId) (b : KadBucket) (found : Bool) (b' : KadBucket) : Type 0 where
  unknown : has_id id b.nodes ≡ false → found ≡ false → b' ≡ b → Removed id b found b'
  marked :
      has_id id b.nodes ≡ true
      → b.replacement_nodes ≡ []
      → found ≡ true
      → Same b.nodes b'.nodes
      → b'.nodes ≡ map (change id (λ n. record n { stales = n.stales + 1 })) b.nodes
      → b'.replacement_nodes ≡ []
      → Removed id b found b'
  promoted :
      (first : KadNode) (rest : List KadNode)
      → has_id id b.nodes ≡ true
      → b.replacement_nodes ≡ first ∷ rest
      → found ≡ true
      → ((x : KadId)
          → count x b'.nodes + tally (operator_eq id x)
            ≡ count x b.nodes + tally (operator_eq first.id x))
      → Same rest b'.replacement_nodes
      → has_id id b'.nodes ≡ false
      → Removed id b found b'

-- With the invariant the promoted replacement is another node than the one it replaces.
promoted_gone :
    (id : KadId) (b : KadBucket) (first : KadNode) (rest : List KadNode) (ns : List KadNode)
    → IsBucket b
    → has_id id b.nodes ≡ true
    → b.replacement_nodes ≡ first ∷ rest
    → count id ns + tally (operator_eq id id) ≡ count id b.nodes + tally (operator_eq first.id id)
    → has_id id ns ≡ false
unfolding count
promoted_gone id b first rest ns v e r c = absent (has_id id ns) refl
  where
    absent : (a : Bool) → has_id id ns ≡ a → a ≡ false
    absent false h = refl
    absent true h = absurd (
        omega (
          arith,
          count_present id ns h,
          v.once id,
          ap (count id) r,
          ap tally (operator_eq_self id),
          c,
        ))

promote_count :
    (id x : KadId) (first : KadNode) (b : KadBucket)
    → has_id id b.nodes ≡ true
    → count x (sort node_before (erase_first id b.nodes ++ (first ∷ []))) + tally (operator_eq id x)
      ≡ count x b.nodes + tally (operator_eq first.id x)
unfolding count
promote_count id x first b e = omega (
  arith,
  count-sort x node_before (erase_first id b.nodes ++ (first ∷ [])),
  count-append x (erase_first id b.nodes) (first ∷ []),
  count-erase_first x id b.nodes e,
)

-- Each removal from a well-formed bucket does one of three things. It changes nothing when the node is
-- not there; when there is no replacement it keeps the node, whose stales grow by one, and all other
-- nodes as they are; or the first replacement takes the place of the node, which is then gone. The
-- answer tells whether the node was there.
pub remove_node-Removed :
    (id : KadId) (b : KadBucket)
    → IsBucket b
    → Removed id b (remove_node id b).0 (remove_node id b).1
remove_node-Removed id b v = elim (Bool-cases (has_id id b.nodes)) [
  | inl e ↦ present b.replacement_nodes refl e
  | inr e ↦ unfold remove_node in rw e (unknown e refl refl)
]
  where
    present :
        (rs : List KadNode)
        → b.replacement_nodes ≡ rs
        → has_id id b.nodes ≡ true
        → Removed id b (remove_node id b).0 (remove_node id b).1
    present [] r e =
        unfold remove_node increment_stales in
        rw (e, r)
          (marked e refl refl (λ x. count-update_first x id increment_stales b.nodes increment_id)
            (update_first-change id increment_stales b.nodes (omega (arith, v.once id))) r)
    present (first ∷ rest) r e =
        unfold remove_node reorder in
        rw (e, r)
          (promoted first rest e refl refl (λ x. promote_count id x first b e)
            (λ x. count-sort x node_before rest)
            (promoted_gone id b first rest _ v e r (promote_count id id first b e)))
