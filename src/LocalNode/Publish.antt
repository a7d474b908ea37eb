-- ===== src/LocalNode/Publish.antt =====
-- The tasks of sds_core/localnode.cpp: what NodesLookupTask looks up, and the publication of entries by
-- EntriesPublishTask. `fails` says for which node a remote call throws; the calls of a batch of three
-- run at once, but each tells of its own node only.
pub mod Unseen
use sniffdogsniff.Shared.{
  ℕ, zero, suc, ◌-◌, ◌%◌, Bool, true, false, Option, none, some, List, [], ◌∷◌, ◌++◌, map, ltb,
  if◌then◌else◌,
}
use sniffdogsniff.Kad.Id.{KadId, id_nbits_far_from}
use sniffdogsniff.Kad.Node.{KadNode, node_before}
use sniffdogsniff.Kad.Table.{KadTable, is_full, get_node_at_height, get_k_closest_to}
use sniffdogsniff.Entries.Entry.{SearchEntry}
use sniffdogsniff.Entries.Db.{Database, Db, returned, thrown, faulted, get_entries_for_broadcast}
use sniffdogsniff.Run.{Op, ◌>>=◌, ◌>>◌, pure, finished, raised, crashed}
use sniffdogsniff.LocalNode.{LocalNode, lock, unlock, insert}
use sniffdogsniff.LocalNode.Search.{insert_id, update_table}

abbrev pub and_ids : Option (List KadId) → (List KadId → Option (List KadId)) → Option (List KadId)
and_ids none f = none
and_ids (some ids) f = f ids

abbrev pub with_id : Option KadNode → List KadId → Option (List KadId)
with_id none ids = none
with_id (some kn) ids = some (kn.id ∷ ids)

-- The heights from `i` on whose first node has not been seen for an hour, each with the node that
-- `rand` chooses; `none` where the bucket has no such node.
unfoldable pub stale_ids : ℕ → ℕ → ℕ → (ℕ → ℕ) → KadTable → Option (List KadId)
stale_ids zero i now rand t = some []
stale_ids (suc n) i now rand t = and_ids (stale_ids n (suc i) now rand t) (λ ids.
    elim (get_node_at_height t i 0) [
      | none ↦ none
      | some first ↦
          if ltb 3600 (now - first.last_seen)
          then with_id (get_node_at_height t i (rand i % 20)) ids
          else some ids
    ])

unfoldable pub far_ids : ℕ → ℕ → KadId → List KadId
far_ids zero i self = []
far_ids (suc n) i self = id_nbits_far_from self i ∷ far_ids n (suc i) self

-- `toLook` of `NodesLookupTask::execute`.
unfoldable pub ids_to_look : ℕ → (ℕ → ℕ) → KadTable → Option (List KadId)
ids_to_look now rand t =
    if is_full t then stale_ids 128 0 now rand t else some (far_ids 128 0 t.self_node.id)

-- `std::map<KadNode, std::vector<SearchEntry>>`, in the order of the nodes.
abbrev pub PublishMap : Type 0
PublishMap = List (KadNode × List SearchEntry)

-- `publishMap[kn].push_back(se)`: of nodes with the same time last seen the first one is the key.
unfoldable pub add_for : KadNode → SearchEntry → PublishMap → PublishMap
add_for kn se [] = (kn, se ∷ []) ∷ []
add_for kn se ((n, ses) ∷ m) =
    if node_before n kn
    then (n, ses) ∷ add_for kn se m
    else if node_before kn n
    then (kn, se ∷ []) ∷ (n, ses) ∷ m
    else (n, ses ++ (se ∷ [])) ∷ m

unfoldable pub add_for_all : SearchEntry → List KadNode → PublishMap → PublishMap
add_for_all se [] m = m
add_for_all se (kn ∷ ns) m = add_for_all se ns (add_for kn se m)

unfoldable pub assign : KadTable → List SearchEntry → PublishMap → Option PublishMap
assign t [] m = some m
assign t (se ∷ ses) m = elim (get_k_closest_to t se.sim_hash) [
  | none ↦ none
  | some ns ↦ assign t ses (add_for_all se ns m)
]

-- What the map has for the own node, and the map without it.
unfoldable pub entries_for : KadNode → PublishMap → List SearchEntry
entries_for self [] = []
entries_for self ((n, ses) ∷ m) =
    if node_before n self then entries_for self m else if node_before self n then [] else ses

unfoldable pub without : KadNode → PublishMap → PublishMap
without self [] = []
without self ((n, ses) ∷ m) =
    if node_before n self
    then (n, ses) ∷ without self m
    else if node_before self n
    then (n, ses) ∷ m
    else m

-- The nodes for which a call has thrown.
unfoldable pub failed_ids : (KadNode → Bool) → PublishMap → List KadId → Option (List KadId)
failed_ids fails [] ids = some ids
failed_ids fails ((n, ses) ∷ m) ids =
    if fails n then and_ids (insert_id n.id ids) (failed_ids fails m) else failed_ids fails m ids

module _ (D : Database) (sha256 : List ℕ → List ℕ) (now now' : ℕ) where
  unfoldable pub assigned : List SearchEntry → Op (LocalNode D sha256) PublishMap
  assigned results n = elim (assign n.table results []) [ none ↦ crashed | some m ↦ finished m n ]

  unfoldable pub insert_all : List SearchEntry → Op (LocalNode D sha256) (Unit {0})
  insert_all [] = pure tt
  insert_all (se ∷ ses) = do insert D sha256 se now now'; insert_all ses

  unfoldable pub after_calls : (KadNode → Bool) → PublishMap → Op (LocalNode D sha256) (Unit {0})
  after_calls fails m n = elim (failed_ids fails m []) [
    | none ↦ crashed
    | some failed ↦ elim (update_table now failed (map (λ e. e.0) m) n.table) [
      | none ↦ crashed
      | some t ↦ finished tt (record n { table = t })
    ]
  ]

  -- `selfNode` is read before the mutex is taken.
  unfoldable pub publish_results :
      (KadNode → Bool) → List SearchEntry → Op (LocalNode D sha256) (Unit {0})
  publish_results fails results n =
      let self = n.table.self_node in
      (do
        lock D sha256
        m ← assigned results
        insert_all (entries_for self m)
        unlock D sha256
        lock D sha256
        after_calls fails (without self m)
        unlock D sha256)
        n

  unfoldable pub due_entries : Op (LocalNode D sha256) (List SearchEntry)
  due_entries n =
      let r = get_entries_for_broadcast D sha256 [] now now' n.db in
      let n' : LocalNode D sha256 = record n { db = r.1 } in
      elim r.0 [ returned ses ↦ finished ses n' | thrown ↦ raised n' | faulted ↦ crashed ]

  unfoldable pub publish_unless_empty :
      (KadNode → Bool) → List SearchEntry → Op (LocalNode D sha256) (Unit {0})
  publish_unless_empty fails [] = pure tt
  publish_unless_empty fails (se ∷ ses) = publish_results fails (se ∷ ses)

  -- `EntriesPublishTask::execute`; `crawled` are the entries that the crawler hands over.
  unfoldable pub execute : (KadNode → Bool) → List SearchEntry → Op (LocalNode D sha256) (Unit {0})
  execute fails crawled = do
    lock D sha256
    results ← due_entries
    unlock D sha256
    publish_unless_empty fails (results ++ crawled)
