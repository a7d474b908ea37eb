-- ===== src/Kad/Table.antt =====
-- kademlia/kadroutingtable.h and kadroutingtable.cpp. One bucket for each height of the distance to
-- the own node. `none` is an access outside an array.
pub mod Invariant
pub mod Lookup
pub mod Visit
pub mod Closest
use sniffdogsniff.Shared.{ℕ, zero, suc, ◌+◌, ◌-◌, Bool, true, false, ◌&&◌, ◌||◌, Option, none, some}
use sniffdogsniff.Shared.{
  List, [], ◌∷◌, ◌++◌, length, get_elem?, set, sort, ltb, leb, if◌then◌else◌,
}
use sniffdogsniff.Shared.Bytes.{bytes_eq}
use sniffdogsniff.Shared.Optional.{◌>>=◌}
use sniffdogsniff.Kad.Id.{
  KadId, kad_id_length, kad_id_bit_length, operator_minus, operator_eq, operator_lt, height,
}
use sniffdogsniff.Kad.Node.{KadNode, new_node, same_node}
use sniffdogsniff.Kad.Bucket.{KadBucket, empty_bucket}
use sniffdogsniff.Kad.Bucket

pub record KadTable : Type 0 where
  pub self_node : KadNode
  pub buckets : List KadBucket

-- `for (i = 0; i < KAD_ID_BIT_LENGTH; i++) buckets[i] = new KadBucket(i);`, from `i` on.
unfoldable pub make_buckets : ℕ → ℕ → List KadBucket
make_buckets zero i = []
make_buckets (suc left) i = empty_bucket i ∷ make_buckets left (suc i)

-- The constructor; `self_id` is what `KadId::randomId` returns.
unfoldable pub new_table : KadId → KadTable
new_table self_id = record {
  self_node = new_node self_id [];
  buckets = make_buckets kad_id_bit_length 0;
}

unfoldable pub set_self_node_address : List ℕ → KadTable → KadTable
set_self_node_address address t = record { self_node = self'; buckets = t.buckets }
  where
    self' : KadNode
    self' = record {
      id = t.self_node.id;
      address = address;
      last_seen = t.self_node.last_seen;
      stales = t.self_node.stales;
    }

all_full : List KadBucket → Bool
all_full [] = true
all_full (b ∷ bs) = if Bucket.is_full b then all_full bs else false

unfoldable pub is_full : KadTable → Bool
unfolding all_full
is_full t = all_full t.buckets

any_has : KadNode → List KadBucket → Bool
any_has kn [] = false
any_has kn (b ∷ bs) = if Bucket.has_node kn b then true else any_has kn bs

unfoldable pub has_node : KadNode → KadTable → Bool
unfolding any_has
has_node kn t = any_has kn t.buckets

-- A change of `this->buckets[h]`.
unfoldable pub in_bucket : (KadBucket → Bool × KadBucket) → ℕ → KadTable → Option (Bool × KadTable)
in_bucket change h t = do
  b ← get_elem? t.buckets h
  some ((change b).0, record t { buckets = set t.buckets h (change b).1 })

unfoldable pub push_node : ℕ → KadNode → KadTable → Option (Bool × KadTable)
unfolding in_bucket
push_node now kn t =
    if same_node t.self_node kn || bytes_eq t.self_node.address kn.address
    then some (false, t)
    else height (operator_minus t.self_node.id kn.id) >>= λ h.
        in_bucket (Bucket.push_node now kn) h t

unfoldable pub remove_node : KadId → KadTable → Option (Bool × KadTable)
unfolding in_bucket
remove_node id t =
    if operator_eq t.self_node.id id
    then some (false, t)
    else height (operator_minus t.self_node.id id) >>= λ h. in_bucket (Bucket.remove_node id) h t

-- The nodes of `this->buckets[k]`.
unfoldable pub nodes_at : List KadBucket → ℕ → List KadNode
nodes_at [] k = []
nodes_at (b ∷ bs) zero = b.nodes
nodes_at (b ∷ bs) (suc k) = nodes_at bs k

-- `for (j = 0; j < buck->nodes.size() && closest.size() < count; j++) closest.push_back(...)`.
unfoldable pub fill : ℕ → List KadNode → List KadNode → List KadNode
fill count closest [] = closest
fill count closest (n ∷ ns) =
    let more = fill count (closest ++ (n ∷ [])) ns in
    if ltb (length closest) count then more else closest

-- The loop over `i`: the bucket `i` below and the one `i` above, as long as there is one of them.
unfoldable pub spread : List KadBucket → ℕ → ℕ → ℕ → ℕ → List KadNode → List KadNode
spread buckets count h zero i closest = closest
spread buckets count h (suc fuel) i closest =
    let below = if leb i h then fill count closest (nodes_at buckets (h - i)) else closest in
    let above =
      if ltb (h + i) kad_id_bit_length
      then fill count below (nodes_at buckets (h + i))
      else below in
    let more = spread buckets count h fuel (suc i) above in
    if leb i h || ltb (h + i) kad_id_bit_length then more else closest

-- The order of the final sort. It is called for nodes with different identifiers only, where
-- `operator<` has an answer.
unfoldable pub closer : KadId → KadNode → KadNode → Bool
closer id a b = elim (operator_lt (operator_minus a.id id) (operator_minus b.id id)) [
  | none ↦ false
  | some lt ↦ lt
]

-- The loop ends after 127 rounds at most.
unfoldable pub get_closest_to : KadTable → KadId → ℕ → Option (List KadNode)
get_closest_to t id count =
    if operator_eq t.self_node.id id
    then some []
    else height (operator_minus t.self_node.id id) >>= λ h. some (
        sort (closer id)
          (spread t.buckets count h kad_id_bit_length 1 (fill count [] (nodes_at t.buckets h))))

-- `getKClosestTo` asks for as many nodes as an identifier has bytes.
unfoldable pub get_k_closest_to : KadTable → KadId → Option (List KadNode)
get_k_closest_to t id = get_closest_to t id kad_id_length

unfoldable pub get_node_at_height : KadTable → ℕ → ℕ → Option KadNode
get_node_at_height t h index = get_elem? (nodes_at t.buckets h) index

unfoldable pub get_all_nodes : List KadBucket → List KadNode
get_all_nodes [] = []
get_all_nodes (b ∷ bs) = b.nodes ++ get_all_nodes bs
