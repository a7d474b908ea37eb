-- ===== src/LocalNode.antt =====
-- sds_core/localnode.h and localnode.cpp: the calls that the P2P server makes. The mutex is not
-- recursive. The thread that `ping` starts is an operation of its own.
pub mod Nearest
pub mod Threads
pub mod Search
pub mod Lookup
pub mod Publish
use sniffdogsniff.Shared.{ℕ, Bool, true, false, Option, none, some, List, [], ◌∷◌, if◌then◌else◌}
use sniffdogsniff.Kad.Id.{KadId, operator_eq}
use sniffdogsniff.Kad.Node.{KadNode, new_node}
use sniffdogsniff.Kad.Table.{KadTable, get_k_closest_to, has_node, push_node, set_self_node_address}
use sniffdogsniff.Wire.Outcome.{Outcome, ok, fault, hang}
use sniffdogsniff.Wire.Messages.{set_nearest}
use sniffdogsniff.Entries.Entry.{SearchEntry}
use sniffdogsniff.Entries.SimHash.Init.{of_text}
use sniffdogsniff.Entries.Db.{
  Database, Db, Exit, returned, thrown, faulted, insert_result, do_search,
}
use sniffdogsniff.Run.{Run, Op, ◌>>=◌, ◌>>◌, pure, finished, raised, crashed, blocked, aborted}

-- `nearest[kn.getId()] = kn.getAddress()` for each node.
unfoldable pub enter_nodes : List KadNode → List (KadId × List ℕ) → Option (List (KadId × List ℕ))
enter_nodes [] m = some m
enter_nodes (kn ∷ ns) m = elim (set_nearest kn.id kn.address m) [
  | none ↦ none
  | some m' ↦ enter_nodes ns m'
]

unfoldable pub find_k_closest_to : KadId → KadTable → Option (List (KadId × List ℕ))
find_k_closest_to id t = elim (get_k_closest_to t id) [
  | none ↦ none
  | some nodes ↦ enter_nodes nodes []
]

module _ (D : Database) (sha256 : List ℕ → List ℕ) where
  pub record LocalNode : Type 0 where
    pub table : KadTable
    pub db : Db D sha256
    pub locked : Bool

  unfoldable pub lock : Op LocalNode (Unit {0})
  lock n = if n.locked then blocked else finished tt (record n { locked = true })

  unfoldable pub unlock : Op LocalNode (Unit {0})
  unlock n = finished tt (record n { locked = false })

  -- `findKClosestTo` on the own table.
  unfoldable pub k_closest : KadId → Op LocalNode (List (KadId × List ℕ))
  k_closest id n = elim (find_k_closest_to id n.table) [ none ↦ crashed | some m ↦ finished m n ]

  unfoldable pub find_node : KadId → Op LocalNode (List (KadId × List ℕ))
  find_node id = do lock; nearest ← k_closest id; unlock; pure nearest

  unfoldable pub insert : SearchEntry → ℕ → ℕ → Op LocalNode (Unit {0})
  insert se now now' n =
      let r = insert_result D sha256 se now now' n.db in
      let n' : LocalNode = record n { db = r.1 } in
      elim r.0 [ returned u ↦ finished tt n' | thrown ↦ raised n' | faulted ↦ crashed ]

  unfoldable pub store_result : SearchEntry → ℕ → ℕ → Op LocalNode (Unit {0})
  store_result se now now' = do lock; insert se now now'; unlock

  unfoldable pub search : List ℕ → Op LocalNode (List SearchEntry)
  search query n = elim (do_search D sha256 [] query n.db) [
    | ok ses ↦ finished ses n
    | fault ↦ crashed
    | hang ↦ blocked
  ]

  -- The hash of the query, and the nodes that are closest to it.
  unfoldable pub closest_to_text : List ℕ → Op LocalNode (List (KadId × List ℕ))
  closest_to_text query n = elim (of_text query) [ none ↦ crashed | some id ↦ k_closest id n ]

  unfoldable pub nearest_unless : List ℕ → List SearchEntry → Op LocalNode (List (KadId × List ℕ))
  nearest_unless query [] = closest_to_text query
  nearest_unless query (se ∷ ses) = pure []

  -- The two containers of the caller are empty before.
  unfoldable pub find_results : List ℕ → Op LocalNode (List (KadId × List ℕ) × List SearchEntry)
  find_results query = do
    lock
    results ← search query
    nearest ← nearest_unless query results
    unlock
    pure (nearest, results)

  -- `LOG_F(FATAL, ...)` ends the process.
  unfoldable pub ping : KadId → List ℕ → Op LocalNode (Unit {0})
  ping id address n = if operator_eq n.table.self_node.id id then aborted else finished tt n

  unfoldable pub push : ℕ → KadNode → Op LocalNode (Unit {0})
  push now kn n = elim (push_node now kn n.table) [
    | none ↦ crashed
    | some (found, t) ↦ finished tt (record n { table = t })
  ]

  -- The thread of `ping`; `answered` when the other node answers the ping of this one.
  unfoldable pub ping_thread : Bool → ℕ → KadId → List ℕ → Op LocalNode (Unit {0})
  ping_thread answered now id address n =
      let pushed = (do lock; push now (new_node id address); unlock) n in
      if has_node (new_node id address) n.table
      then finished tt n
      else if answered
      then pushed
      else finished tt n

  unfoldable pub set_address : List ℕ → Op LocalNode (Unit {0})
  set_address address n = finished tt (record n { table = set_self_node_address address n.table })
