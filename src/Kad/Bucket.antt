-- ===== src/Kad/Bucket.antt =====
-- kademlia/kadbucket.h and kadbucket.cpp. A bucket keeps up to 20 nodes, and up to 20 more that wait
-- to replace one of them.
pub mod Counting
pub mod Stalest
pub mod Invariant
pub mod Preserve
pub mod Places
pub mod Contents
pub mod Behaviour
use sniffdogsniff.Shared.{ℕ, suc, ◌+◌, Bool, true, false, ◌&&◌, ◌||◌, Option, none, some}
use sniffdogsniff.Shared.{List, [], ◌∷◌, ◌++◌, length, erase_at, drop_last, sort, ltb, leb}
use sniffdogsniff.Shared.{if◌then◌else◌, ◌==◌}
use sniffdogsniff.Kad.Id.{KadId, operator_eq}
use sniffdogsniff.Kad.Node.{KadNode, seen_now, reset_stales, increment_stales, node_before}

abbrev pub kad_bucket_max : ℕ
kad_bucket_max = 20

abbrev pub stales_thr : ℕ
stales_thr = 5

pub record KadBucket : Type 0 where
  pub height : ℕ
  pub nodes : List KadNode
  pub replacement_nodes : List KadNode

unfoldable pub empty_bucket : ℕ → KadBucket
empty_bucket height = record { height = height; nodes = []; replacement_nodes = [] }

-- `std::find` finds a node with this identifier.
unfoldable pub has_id : KadId → List KadNode → Bool
has_id id [] = false
has_id id (n ∷ ns) = operator_eq n.id id || has_id id ns

-- A change made through the iterator that `std::find` returns: to the first such node.
unfoldable pub update_first : KadId → (KadNode → KadNode) → List KadNode → List KadNode
update_first id f [] = []
update_first id f (n ∷ ns) = if operator_eq n.id id then f n ∷ ns else n ∷ update_first id f ns

-- `erase` of that node.
unfoldable pub erase_first : KadId → List KadNode → List KadNode
erase_first id [] = []
erase_first id (n ∷ ns) = if operator_eq n.id id then ns else n ∷ erase_first id ns

unfoldable pub has_node : KadNode → KadBucket → Bool
has_node kn b = has_id kn.id b.nodes

unfoldable pub reorder : KadBucket → KadBucket
reorder b = record b {
  nodes = sort node_before b.nodes;
  replacement_nodes = sort node_before b.replacement_nodes;
}

-- The loop over `it`, which counts in `i`: the position of the stalest node past the threshold.
unfoldable pub find_stalest : ℕ → ℕ → Option ℕ → List KadNode → Option ℕ
find_stalest i stale_max stalest [] = stalest
find_stalest i stale_max stalest (n ∷ ns) =
    let staler = leb stales_thr n.stales && ltb stale_max n.stales in
    find_stalest (suc i) (if staler then n.stales else stale_max)
      (if staler then some i else stalest) ns

-- The replacement list when the bucket has no room, with `found`.
unfoldable pub push_replacement : ℕ → KadNode → List KadNode → Bool × List KadNode
push_replacement now kn rs =
    if has_id kn.id rs
    then (true, update_first kn.id (seen_now now) rs)
    else if ltb (length rs) kad_bucket_max
    then (false, rs ++ (kn ∷ []))
    else (false, drop_last rs ++ (kn ∷ []))

-- `pushNode` up to the call of `reorder`.
unfoldable pub place_node : ℕ → KadNode → KadBucket → Bool × KadBucket
place_node now kn b =
    if has_id kn.id b.nodes
    then (
      true,
      record b { nodes = update_first kn.id (λ n. reset_stales (seen_now now n)) b.nodes },
    )
    else if ltb (length b.nodes) kad_bucket_max
    then (false, record b { nodes = b.nodes ++ (kn ∷ []) })
    else elim (find_stalest 0 0 none b.nodes) [
      | some i ↦ (false, record b { nodes = erase_at i b.nodes ++ (kn ∷ []) })
      | none ↦
          let r = push_replacement now kn b.replacement_nodes in
          (r.0, record b { replacement_nodes = r.1 })
    ]

unfoldable pub push_node : ℕ → KadNode → KadBucket → Bool × KadBucket
push_node now kn b = let r = place_node now kn b in (r.0, reorder r.1)

-- `removeNode`: the first replacement takes the place of the node; with none the node grows stale.
unfoldable pub remove_node : KadId → KadBucket → Bool × KadBucket
remove_node id b =
    if has_id id b.nodes
    then elim b.replacement_nodes [
      | [] ↦ (true, record b { nodes = update_first id increment_stales b.nodes })
      | first ∷ rest ↦ (
        true,
        reorder
            (record b { nodes = erase_first id b.nodes ++ (first ∷ []); replacement_nodes = rest }),
      )
    ]
    else (false, b)

unfoldable pub is_full : KadBucket → Bool
is_full b = length b.nodes == kad_bucket_max
