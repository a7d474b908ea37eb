-- ===== src/LocalNode/Search.antt =====
-- The search over the network of sds_core/localnode.cpp, `doSearch`. The remote calls and the crawler are
-- arguments: `ask` is what the ping and the search give that are sent to a node, `none` for an
-- exception. The replies are read in the order in which the code waits for them.
pub mod Rounds
pub mod Network
use sniffdogsniff.Shared.{
  ℕ, zero, suc, ◌+◌, Bool, true, false, Option, none, some, List, [], ◌∷◌, ◌++◌, length, leb,
  if◌then◌else◌,
}
use sniffdogsniff.Shared.Optional.{◌>>=◌}
use sniffdogsniff.Kad.Id.{KadId, operator_eq, operator_lt}
use sniffdogsniff.Kad.Node.{KadNode, new_node, node_before}
use sniffdogsniff.Kad.Table.{KadTable, push_node, remove_node}
use sniffdogsniff.Entries.Entry.{SearchEntry}
use sniffdogsniff.Wire.Results.{FindResultsReply, has_results}

abbrev pub alpha : ℕ
alpha = 3

-- `std::set<KadNode>::insert`: of nodes with the same time last seen the first one stays.
unfoldable pub insert_node : KadNode → List KadNode → List KadNode
insert_node kn [] = kn ∷ []
insert_node kn (n ∷ ns) =
    if node_before n kn
    then n ∷ insert_node kn ns
    else if node_before kn n
    then kn ∷ n ∷ ns
    else n ∷ ns

-- The iterator behind `cur`.
unfoldable pub next_node : KadNode → List KadNode → Option KadNode
next_node cur [] = none
next_node cur (n ∷ ns) = if node_before cur n then some n else next_node cur ns

-- `std::set<KadId>`; a comparison of equal identifiers is a read outside of the array, `none`.
unfoldable pub insert_id : KadId → List KadId → Option (List KadId)
insert_id id [] = some (id ∷ [])
insert_id id (k ∷ ks) =
    let rest = insert_id id ks in
    elim (operator_lt k id) [
      | none ↦ none
      | some true ↦ rest >>= λ ks'. some (k ∷ ks')
      | some false ↦ some (id ∷ k ∷ ks)
    ]

unfoldable pub found_id : KadId → List KadId → Option Bool
found_id id [] = some false
found_id id (k ∷ ks) =
    let rest = found_id id ks in
    elim (operator_lt k id) [ none ↦ none | some true ↦ rest | some false ↦ some false ]

-- The futures that nobody has waited for, in the order of the identifiers.
abbrev pub Futures : Type 0
Futures = List (KadId × Option FindResultsReply)

unfoldable pub set_future : KadId → Option FindResultsReply → Futures → Option Futures
set_future id reply [] = some ((id, reply) ∷ [])
set_future id reply ((k, r) ∷ fs) =
    let rest = set_future id reply fs in
    elim (operator_lt k id) [
      | none ↦ none
      | some true ↦ rest >>= λ fs'. some ((k, r) ∷ fs')
      | some false ↦ some ((id, reply) ∷ (k, r) ∷ fs)
    ]

-- The variables of `doSearch` that the loop changes.
pub record Search : Type 0 where
  pub results : List SearchEntry
  pub probed_empty : List KadId
  pub failed : List KadId
  pub target_nodes : List KadNode

unfoldable pub insert_nearest : List (KadId × List ℕ) → List KadNode → List KadNode
insert_nearest [] targets = targets
insert_nearest ((id, address) ∷ m) targets =
    insert_nearest m (insert_node (new_node id address) targets)

-- The loop over the futures.
unfoldable pub collect : Futures → Search → Option Search
collect [] s = some s
collect ((id, none) ∷ fs) s =
    insert_id id s.failed >>= λ failed. collect fs (record s { failed = failed })
collect ((id, some reply) ∷ fs) s =
    if has_results reply
    then collect fs (record s { results = s.results ++ reply.results })
    else (insert_id id s.probed_empty >>= λ ids. collect fs (record s {
      probed_empty = ids;
      target_nodes = insert_nearest reply.nodes.nearest s.target_nodes;
    }))

pub data Searched : Type 0 where
  searched : Search → Searched
  crashed : Searched
  out_of_fuel : Searched

-- The next round, if there is one.
unfoldable pub go_on : (KadNode → Searched) → KadNode → Search → Searched
go_on round ikn s = elim (next_node ikn s.target_nodes) [ none ↦ searched s | some n ↦ round n ]

-- A round for the node `ikn`, and the rounds behind it. In each one the time last seen is less than
-- before.
unfoldable pub rounds :
    ℕ → (KadNode → Option FindResultsReply) → KadNode → Futures → Search → Searched
rounds zero ask ikn futures s = out_of_fuel
rounds (suc fuel) ask ikn futures s = elim (set_future ikn.id (ask ikn) futures) [
  | none ↦ crashed
  | some fs ↦
      if leb alpha (length fs)
      then elim (collect fs s) [
        | none ↦ crashed
        | some s' ↦ go_on (λ n. rounds fuel ask n [] s') ikn s'
      ]
      else go_on (λ n. rounds fuel ask n fs s) ikn s
]

-- The loop from the first of the nodes.
unfoldable pub rounds_from : (KadNode → Option FindResultsReply) → Search → List KadNode → Searched
rounds_from ask s [] = searched s
rounds_from ask s (n ∷ ns) = rounds (suc n.last_seen) ask n [] s

unfoldable pub all_rounds : (KadNode → Option FindResultsReply) → Search → Searched
all_rounds ask s = rounds_from ask s s.target_nodes

-- The update of the table by the nodes that failed and those that did not.
unfoldable pub update_table : ℕ → List KadId → List KadNode → KadTable → Option KadTable
update_table now failed [] t = some t
update_table now failed (n ∷ ns) t = elim (found_id n.id failed) [
  | none ↦ none
  | some true ↦ remove_node n.id t >>= λ r. update_table now failed ns r.1
  | some false ↦ push_node now n t >>= λ r. update_table now failed ns r.1
]
