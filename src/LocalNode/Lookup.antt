-- ===== src/LocalNode/Lookup.antt =====
-- `doNodesLookup` of the task in sds_core/localnode.cpp. `ask` is what the ping and the search give that
-- are sent to a node, `none` for an exception; `late` says after which round the minute is over.
pub mod Rounds
use sniffdogsniff.Shared.{
  ℕ, zero, suc, ◌+◌, Bool, true, false, not, ◌||◌, Option, none, some, List, [], ◌∷◌, ◌++◌, take,
  sort, if◌then◌else◌,
}
use sniffdogsniff.Shared.Bytes.{bytes_eq}
use sniffdogsniff.Shared.Optional.{◌>>=◌}
use sniffdogsniff.Kad.Id.{KadId, operator_eq}
use sniffdogsniff.Kad.Node.{KadNode, new_node, node_before}
use sniffdogsniff.Kad.Bucket.{has_id}
use sniffdogsniff.Kad.Table.{KadTable, closer, get_closest_to, push_node, remove_node}
use sniffdogsniff.Wire.Messages.{FindNodeReply}
use sniffdogsniff.LocalNode.Search.{alpha, insert_node, insert_id, found_id}

-- `std::set<KadNode>::find`: a node with the same time last seen.
unfoldable pub found_node : KadNode → List KadNode → Bool
found_node kn [] = false
found_node kn (n ∷ ns) = if node_before n kn then found_node kn ns else not (node_before kn n)

-- The nodes of a reply that are neither probed nor the own one are discovered.
unfoldable pub discover :
    KadNode → List KadNode → List (KadId × List ℕ) → List KadNode → List KadNode
discover self_node probed [] discovered = discovered
discover self_node probed ((id, address) ∷ m) discovered =
    if found_node (new_node id address) probed
    then discover self_node probed m discovered
    else if operator_eq self_node.id id || bytes_eq self_node.address address
    then discover self_node probed m discovered
    else discover self_node probed m (discovered ++ (new_node id address ∷ []))

pub record Probes : Type 0 where
  pub probed : List KadNode
  pub failed : List KadId
  pub discovered : List KadNode

-- The loop over the futures of a round.
unfoldable pub probe :
    KadNode → (KadNode → Option FindNodeReply) → List KadNode → Probes → Option Probes
probe self_node ask [] p = some p
probe self_node ask (ikn ∷ ns) p =
    let probed = insert_node ikn p.probed in
    elim (ask ikn) [
      | none ↦ insert_id ikn.id p.failed >>= λ failed.
          probe self_node ask ns
            (record { probed = probed; failed = failed; discovered = p.discovered })
      | some reply ↦ probe self_node ask ns (record {
        probed = probed;
        failed = p.failed;
        discovered = discover self_node probed reply.nearest p.discovered;
      })
    ]

unfoldable pub repeated : List KadNode → Bool
repeated [] = false
repeated (n ∷ ns) = has_id n.id ns || repeated ns

-- `std::sort` compares equal identifiers when there are some, and reads outside of an array.
unfoldable pub sort_discovered : KadId → List KadNode → Option (List KadNode)
sort_discovered target ns = if repeated ns then none else some (sort (closer target) ns)

pub data Looked : Type 0 where
  looked : Probes → Looked
  crashed : Looked
  out_of_fuel : Looked

-- What follows the loop over the futures: the discovered nodes are sorted.
unfoldable pub after_probe : (Probes → List KadNode → Looked) → KadId → Option Probes → Looked
after_probe round target none = crashed
after_probe round target (some p) = elim (sort_discovered target p.discovered) [
  | none ↦ crashed
  | some sorted ↦ round p sorted
]

-- `while (alphaClosest.size()) { ... }`.
unfoldable pub lookup_rounds :
    ℕ
    → (ℕ → Bool)
    → KadNode
    → (KadNode → Option FindNodeReply)
    → KadId
    → List KadNode
    → Probes
    → Looked
lookup_rounds fuel late self_node ask target [] p = looked p
lookup_rounds zero late self_node ask target (n ∷ ns) p = out_of_fuel
lookup_rounds (suc fuel) late self_node ask target (n ∷ ns) p =
    after_probe
      (λ p' sorted.
        if late fuel
        then looked p'
        else lookup_rounds fuel late self_node ask target (take alpha sorted) p')
      target (probe self_node ask (n ∷ ns) (record p { discovered = [] }))

-- The update of the table, and how many nodes were new to it.
unfoldable pub update_probed : ℕ → List KadId → List KadNode → ℕ → KadTable → Option (ℕ × KadTable)
update_probed now failed [] n_discovered t = some (n_discovered, t)
update_probed now failed (n ∷ ns) n_discovered t = elim (found_id n.id failed) [
  | none ↦ none
  | some true ↦ remove_node n.id t >>= λ r. update_probed now failed ns n_discovered r.1
  | some false ↦ push_node now n t >>= λ r.
      update_probed now failed ns (if r.0 then n_discovered else suc n_discovered) r.1
]

-- The fuel is two rounds: in the second one every new node counts as probed.
unfoldable pub do_nodes_lookup :
    (ℕ → Bool) → (KadNode → Option FindNodeReply) → KadId → ℕ → KadTable → Option (ℕ × KadTable)
do_nodes_lookup late ask target now t = do
  closest ← get_closest_to t target alpha
  p ← finished (
      lookup_rounds 2 late t.self_node ask target closest
        (record { probed = []; failed = []; discovered = [] }))
  update_probed now p.failed p.probed 0 t
  where
    finished : Looked → Option Probes
    finished (looked p) = some p
    finished crashed = none
    finished out_of_fuel = none
