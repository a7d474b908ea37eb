-- ===== src/Kad/Bucket/Invariant.antt =====
-- The invariant of a bucket, which `pushNode` and `removeNode` keep.
use sniffdogsniff.Shared.{
  ℕ, ◌+◌, ◌-◌, ◌≤◌, ◌<◌, ◌≡◌, refl, ap, ◌∙◌, true, false, arith, inl, inr, ◌⊎◌, none, some,
}
use sniffdogsniff.Shared.{
  List, [], ◌∷◌, ◌++◌, length, length-append, length-sort, drop_last, sort, sort-All, All,
  All-append, ltb, Bool-cases,
}
use native.Mathlib.Nat.{add_comm, le_refl}
use sniffdogsniff.Kad.Id.{KadId, operator_eq}
use sniffdogsniff.Kad.Node.{KadNode, seen_now, node_before}
use sniffdogsniff.Kad.Bucket.{
  KadBucket, empty_bucket, kad_bucket_max, stales_thr, has_id, update_first, erase_first, reorder,
  find_stalest, push_replacement,
}
use sniffdogsniff.Kad.Bucket.Stalest.{find_stalest_fresh}
use sniffdogsniff.Kad.Bucket.Counting.{
  count, tally, count-append, count-sort, count_absent, count_same, count-update_first,
  count-drop_last,
}

abbrev pub IsFresh : KadNode → Type 0
IsFresh n = n.stales < stales_thr

-- Replacements wait only while the bucket is full, and then nobody is stale.
abbrev pub Waits : List KadNode → List KadNode → Type 0
Waits nodes [] = Unit {0}
Waits nodes (r ∷ rs) = (length nodes ≡ kad_bucket_max) × All IsFresh nodes × All IsFresh (r ∷ rs)

-- At most 20 nodes and 20 replacements, and no identifier twice in the two lists together.
pub record IsBucket (b : KadBucket) : Type 0 where
  pub nodes_max : length b.nodes ≤ kad_bucket_max
  pub replacement_max : length b.replacement_nodes ≤ kad_bucket_max
  pub once : (x : KadId) → count x b.nodes + count x b.replacement_nodes ≤ 1
  pub waits : Waits b.nodes b.replacement_nodes

pub empty_bucket-IsBucket : (h : ℕ) → IsBucket (empty_bucket h)
unfolding empty_bucket count
empty_bucket-IsBucket h = record {
  nodes_max = omega arith;
  replacement_max = omega arith;
  once = λ x. omega arith;
  waits = tt;
}

pub Waits-intro :
    (nodes rs : List KadNode)
    → length nodes ≡ kad_bucket_max
    → All IsFresh nodes
    → All IsFresh rs
    → Waits nodes rs
Waits-intro nodes [] l h k = tt
Waits-intro nodes (r ∷ rs) l h k = (l, h, k)

Waits-IsFresh : (nodes rs : List KadNode) → Waits nodes rs → All IsFresh rs
Waits-IsFresh nodes [] w = tt
Waits-IsFresh nodes (r ∷ rs) w = w.2

-- Waiting carries over to lists of the same length whose nodes are fresh if the old ones are.
pub Waits-map :
    (ns ms rs : List KadNode)
    → length ms ≡ length ns
    → (All IsFresh ns → All IsFresh ms)
    → Waits ns rs
    → Waits ms rs
Waits-map ns ms [] l f w = tt
Waits-map ns ms (r ∷ rs) l f w = (l ∙ w.0, f w.1, w.2)

pub reorder-IsBucket : (b : KadBucket) → IsBucket b → IsBucket (reorder b)
unfolding reorder sort
reorder-IsBucket b v = record {
  nodes_max = omega (arith, v.nodes_max, length-sort node_before b.nodes);
  replacement_max = omega (arith, v.replacement_max, length-sort node_before b.replacement_nodes);
  once = λ x.
      rw (count-sort x node_before b.nodes, count-sort x node_before b.replacement_nodes)
        (v.once x);
  waits = sorted b.replacement_nodes v.waits;
}
  where
    sorted :
        (rs : List KadNode)
        → Waits b.nodes rs
        → Waits (sort node_before b.nodes) (sort node_before rs)
    sorted [] w = tt
    sorted (r ∷ rs) w =
        Waits-intro (sort node_before b.nodes) (sort node_before (r ∷ rs))
          (length-sort node_before b.nodes ∙ w.0) (sort-All node_before IsFresh b.nodes w.1)
          (sort-All node_before IsFresh (r ∷ rs) w.2)

pub length-update_first :
    (id : KadId) (f : KadNode → KadNode) (ns : List KadNode)
    → length (update_first id f ns) ≡ length ns
unfolding update_first
length-update_first id f [] = refl
length-update_first id f (n ∷ ns) = ground (arith, length-update_first id f ns)

pub update_first-All {κ} :
    (P : KadNode → Type κ) (id : KadId) (f : KadNode → KadNode) (ns : List KadNode)
    → ((n : KadNode) → P n → P (f n))
    → All P ns
    → All P (update_first id f ns)
unfolding update_first
update_first-All P id f [] h k = tt
update_first-All P id f (n ∷ ns) h k = elim (Bool-cases (operator_eq n.id id)) [
  | inl e ↦ rw e (h n k.0, k.1)
  | inr e ↦ rw e (k.0, update_first-All P id f ns h k.1)
]

pub erase_first-All {κ} :
    (P : KadNode → Type κ) (id : KadId) (ns : List KadNode) → All P ns → All P (erase_first id ns)
unfolding erase_first
erase_first-All P id [] k = tt
erase_first-All P id (n ∷ ns) k = elim (Bool-cases (operator_eq n.id id)) [
  | inl e ↦ rw e k.1
  | inr e ↦ rw e (k.0, erase_first-All P id ns k.1)
]

pub length-erase_first :
    (id : KadId) (ns : List KadNode)
    → has_id id ns ≡ true
    → length (erase_first id ns) + 1 ≡ length ns
unfolding erase_first has_id
length-erase_first id [] h = cc
length-erase_first id (n ∷ ns) h = ground (arith, length-erase_first id ns)

-- What one more node adds to a count, where its identifier is not there yet.
pub count_new :
    (x : KadId) (kn : KadNode) (ns ms : List KadNode)
    → count kn.id ns ≡ 0
    → count kn.id ms ≡ 0
    → count x ns + count x ms ≤ 1
    → count x (ns ++ (kn ∷ [])) + count x ms ≤ 1
unfolding count
count_new x kn ns ms h k o = elim (Bool-cases (operator_eq kn.id x)) [
  | inl e ↦ omega (
    arith,
    count-append x ns (kn ∷ []),
    ap tally e,
    count_same kn.id x ns e,
    count_same kn.id x ms e,
  )
  | inr e ↦ omega (arith, count-append x ns (kn ∷ []), ap tally e)
]

pub Waits-absent :
    (ns rs : List KadNode)
    → Waits ns rs
    → (length ns < kad_bucket_max) ⊎ ((j : ℕ) × (find_stalest 0 0 none ns ≡ some j))
    → rs ≡ []
Waits-absent ns [] w c = refl
Waits-absent ns (r ∷ rs) w (inl short) = absurd (omega arith)
Waits-absent ns (r ∷ rs) w (inr (j, e)) = cc (find_stalest_fresh 0 0 none ns w.1)

-- The node takes a free place, or that of a stale node: then nobody waits.
pub refill-IsBucket :
    (b : KadBucket) (kn : KadNode) (ns : List KadNode)
    → IsBucket b
    → b.replacement_nodes ≡ []
    → has_id kn.id b.nodes ≡ false
    → length ns < kad_bucket_max
    → ((x : KadId) → count x ns ≤ count x b.nodes)
    → IsBucket (record b { nodes = ns ++ (kn ∷ []) })
unfolding count
refill-IsBucket b kn ns v e new short less = record {
  nodes_max = omega (arith, length-append ns (kn ∷ []));
  replacement_max = v.replacement_max;
  once = λ x. rw e (
      count_new x kn ns [] (omega (arith, less kn.id, count_absent kn.id b.nodes new)) refl
        (le_of x));
  waits = rw e tt;
}
  where
    le_of : (x : KadId) → count x ns + count x [] ≤ 1
    le_of x = omega (arith, less x, v.once x, ap (count x) e)

pub push_replacement-fst :
    (now : ℕ) (kn : KadNode) (rs : List KadNode) → (push_replacement now kn rs).0 ≡ has_id kn.id rs
unfolding push_replacement
push_replacement-fst now kn rs = ground arith

-- The replacement list with one node more, or with its last one given up for the node.
queue-IsBucket :
    (b : KadBucket) (kn : KadNode) (rs : List KadNode)
    → IsBucket b
    → IsFresh kn
    → has_id kn.id b.nodes ≡ false
    → has_id kn.id b.replacement_nodes ≡ false
    → length b.nodes ≡ kad_bucket_max
    → All IsFresh b.nodes
    → All IsFresh rs
    → length rs < kad_bucket_max
    → ((x : KadId) → count x rs ≤ count x b.replacement_nodes)
    → IsBucket (record b { replacement_nodes = rs ++ (kn ∷ []) })
queue-IsBucket b kn rs v fresh new new' full all all' short less = record {
  nodes_max = v.nodes_max;
  replacement_max = omega (arith, length-append rs (kn ∷ []));
  once = λ x. rw (add_comm (count x b.nodes) _) (
      count_new x kn rs b.nodes
        (omega (arith, less kn.id, count_absent kn.id b.replacement_nodes new'))
        (count_absent kn.id b.nodes new) (omega (arith, less x, v.once x)));
  waits =
      Waits-intro b.nodes (rs ++ (kn ∷ [])) full all
        (All-append IsFresh rs (kn ∷ []) all' (fresh, tt));
}

length-drop_last : (rs : List KadNode) → length (drop_last rs) ≡ length rs - 1
length-drop_last [] = omega arith
length-drop_last (r ∷ []) = omega arith
length-drop_last (r ∷ q ∷ rs) = omega (arith, length-drop_last (q ∷ rs))

pub drop_last-All {κ} : (P : KadNode → Type κ) (rs : List KadNode) → All P rs → All P (drop_last rs)
drop_last-All P [] h = tt
drop_last-All P (r ∷ []) h = tt
drop_last-All P (r ∷ q ∷ rs) h = (h.0, drop_last-All P (q ∷ rs) h.1)

pub seen_now_id : (now : ℕ) (n : KadNode) → (seen_now now n).id ≡ n.id
unfolding seen_now
seen_now_id now n = refl

pub replacement-IsBucket :
    (now : ℕ) (b : KadBucket) (kn : KadNode)
    → IsBucket b
    → IsFresh kn
    → has_id kn.id b.nodes ≡ false
    → length b.nodes ≡ kad_bucket_max
    → All IsFresh b.nodes
    → IsBucket (record b { replacement_nodes = (push_replacement now kn b.replacement_nodes).1 })
unfolding push_replacement
replacement-IsBucket now b kn v fresh new full all =
    elim (Bool-cases (has_id kn.id b.replacement_nodes)) [
      | inl e ↦ rw e (record {
        nodes_max = v.nodes_max;
        replacement_max = omega (
          arith,
          v.replacement_max,
          length-update_first kn.id (seen_now now) b.replacement_nodes,
        );
        once = λ x.
            rw (count-update_first x kn.id (seen_now now) b.replacement_nodes (seen_now_id now))
              (v.once x);
        waits =
            Waits-intro b.nodes (update_first kn.id (seen_now now) b.replacement_nodes) full all (
              update_first-All IsFresh kn.id (seen_now now) b.replacement_nodes
                (λ n h. unfold seen_now in h) (Waits-IsFresh b.nodes b.replacement_nodes v.waits));
      })
      | inr e ↦ elim (Bool-cases (ltb (length b.replacement_nodes) kad_bucket_max)) [
        | inl l ↦
            rw (e, l)
              (queue-IsBucket b kn b.replacement_nodes v fresh new e full all
                (Waits-IsFresh b.nodes b.replacement_nodes v.waits) (ground arith) (λ x. le_refl _))
        | inr l ↦
            rw (e, l)
              (queue-IsBucket b kn (drop_last b.replacement_nodes) v fresh new e full all
                (drop_last-All IsFresh b.replacement_nodes
                  (Waits-IsFresh b.nodes b.replacement_nodes v.waits))
                (omega (arith, v.replacement_max, length-drop_last b.replacement_nodes))
                (λ x. count-drop_last x b.replacement_nodes))
      ]
    ]
