-- ===== src/LocalNode/Search/Network.antt =====
-- `doSearch` of sds_core/localnode.cpp from its start to its results. The thread that republishes them is
-- not modelled.
use sniffdogsniff.Shared.{
  ℕ, true, false, Option, none, some, List, [], ◌∷◌, length, ◌==◌, if◌then◌else◌,
}
use sniffdogsniff.Kad.Id.{KadId, operator_eq}
use sniffdogsniff.Kad.Node.{KadNode}
use sniffdogsniff.Kad.Table.{get_k_closest_to}
use sniffdogsniff.Wire.Outcome.{Outcome, ok, fault, hang}
use sniffdogsniff.Wire.Results.{FindResultsReply}
use sniffdogsniff.Entries.Entry.{SearchEntry}
use sniffdogsniff.Entries.SimHash.Init.{of_text}
use sniffdogsniff.Entries.Db.{Database}
use sniffdogsniff.Entries.Db
use sniffdogsniff.Run.{Op, ◌>>=◌, ◌>>◌, pure, finished}
use sniffdogsniff.Run
use sniffdogsniff.LocalNode.{LocalNode, lock, unlock}
use sniffdogsniff.LocalNode.Search.{
  insert_node, Search, searched, crashed, out_of_fuel, all_rounds, update_table,
}

module _ (D : Database) (sha256 : List ℕ → List ℕ) where
  -- The loop over the nodes that are closest: the own node searches its database, the others become
  -- targets.
  unfoldable pub choose_targets :
      List ℕ → List KadNode → LocalNode D sha256 → Search → Outcome Search
  choose_targets query [] n s = ok s
  choose_targets query (kn ∷ ns) n s =
      let others =
        choose_targets query ns n (record s { target_nodes = insert_node kn s.target_nodes }) in
      elim (operator_eq kn.id n.table.self_node.id) [
        | true ↦ elim (Db.do_search D sha256 s.results query n.db) [
          | ok results ↦ choose_targets query ns n (record s { results = results })
          | fault ↦ fault
          | hang ↦ hang
        ]
        | false ↦ others
      ]

  unfoldable pub hash_of : List ℕ → Op (LocalNode D sha256) KadId
  hash_of query n = elim (of_text query) [ none ↦ Run.crashed | some id ↦ finished id n ]

  unfoldable pub closest_targets :
      KadId → List ℕ → List SearchEntry → Op (LocalNode D sha256) Search
  closest_targets id query results n = elim (get_k_closest_to n.table id) [
    | none ↦ Run.crashed
    | some ns ↦
        elim (choose_targets query ns n
          (record { results = results; probed_empty = []; failed = []; target_nodes = [] })) [
            | ok s ↦ finished s n
            | fault ↦ Run.crashed
            | hang ↦ Run.blocked
          ]
  ]

  -- A walk without an end would block.
  unfoldable pub ask_targets :
      (KadNode → Option FindResultsReply) → Search → Op (LocalNode D sha256) Search
  ask_targets ask s n = elim (all_rounds ask s) [
    | searched s' ↦ finished s' n
    | crashed ↦ Run.crashed
    | out_of_fuel ↦ Run.blocked
  ]

  unfoldable pub update_nodes : ℕ → Search → Op (LocalNode D sha256) (Unit {0})
  update_nodes now s n = elim (update_table now s.failed s.target_nodes n.table) [
    | none ↦ Run.crashed
    | some t ↦ finished tt (record n { table = t })
  ]

  -- `crawl` is what the crawler appends to the results when there are none.
  unfoldable pub search_network :
      (KadNode → Option FindResultsReply)
      → List SearchEntry
      → List ℕ
      → ℕ
      → List SearchEntry
      → Op (LocalNode D sha256) (List SearchEntry)
  search_network ask crawl query now results = do
    id ← hash_of query
    lock D sha256
    s ← closest_targets id query results
    unlock D sha256
    s' ← ask_targets ask s
    lock D sha256
    update_nodes now s'
    unlock D sha256
    pure (if length s'.results == 0 then crawl else s'.results)
