-- ===== src/Tests.antt =====
-- The theorems at concrete nodes, tables and buffers.
mod Services
mod Net
mod Clients
mod Pages
use sniffdogsniff.Shared.{
  ℕ, ◌+◌, ◌≤◌, ◌<◌, ◌≡◌, refl, sym, ap, subst, ◌∙◌, Bool, true, Option, some, none, List, [], ◌∷◌,
  replicate, sort, set, arith, ◌↔◌, ltb, ◌==◌, if◌then◌else◌, ◌⊎◌, ◌-◌, ◌*◌, ◌^◌,
}
use sniffdogsniff.Kad.Id.{
  KadId, IsKadId, operator_minus, operator_eq, operator_lt, height, value, id_nbits_far_from,
}
use sniffdogsniff.Kad.Id.Value
use sniffdogsniff.Kad.Id.Height
use sniffdogsniff.Kad.Id.Metric
use sniffdogsniff.Kad.Node.{KadNode, new_node, same_node}
use sniffdogsniff.Shared.Bytes.{bytes_eq}
use sniffdogsniff.Kad.Bucket.{KadBucket, empty_bucket}
use sniffdogsniff.Kad.Bucket
use sniffdogsniff.Kad.Bucket.Invariant.{IsBucket, empty_bucket-IsBucket}
use sniffdogsniff.Kad.Bucket.Preserve.{push_node-IsBucket, remove_node-IsBucket}
use sniffdogsniff.Kad.Bucket.Contents.{Placed, Holds}
use sniffdogsniff.Kad.Bucket.Behaviour.{
  IsOrdered, Pushed, Removed, push_node-IsOrdered, push_node-Pushed, remove_node-Removed,
}
use sniffdogsniff.Kad.Bucket.Counting.{count}
use sniffdogsniff.Kad.Table.{KadTable, new_table, get_all_nodes, get_closest_to, nodes_at}
use sniffdogsniff.Kad.Table
use sniffdogsniff.Kad.Table.Invariant.{
  IsTable, new_table-IsTable, push_node-IsTable, remove_node-IsTable,
}
use sniffdogsniff.Kad.Table.Lookup.{has_node_lem, get_all_nodes_once}
use sniffdogsniff.Kad.Table.Closest.{Answer, get_closest_to-Answer}
use sniffdogsniff.Wire.Buf.{grow, le_bytes}
use sniffdogsniff.Wire.Buf.Growth.{grow_lem, grow_zero}
use sniffdogsniff.Wire.Messages.{
  PingArgs, FindNodeArgs, FindNodeReply, FindResultsArgs, write_ping_args, read_ping_args,
  write_ping_reply, read_ping_reply, write_find_node_args, read_find_node_args,
  write_find_results_args, read_find_results_args, write_find_node_reply, read_find_node_reply,
}
use sniffdogsniff.Wire.Buf.Trips.{RoundTrip}
use sniffdogsniff.Wire.Messages.RoundTrip.{
  IsPingArgs, IsFindNodeReply, no_nodes, reply_bytes, entries_bytes, read_ping_args-write_ping_args,
  read_ping_reply-write_ping_reply, read_find_node_args-write_find_node_args,
  read_find_results_args-write_find_results_args, read_find_node_reply-write_find_node_reply,
}
use sniffdogsniff.Shared.{length}
use sniffdogsniff.Entries.Entry.{
  SearchEntry, new_search_entry, write_search_entry, read_search_entry, has_valid_size,
  properties_size, find_property, add_property, remove_property,
}
use sniffdogsniff.Entries.Entry.Properties
use sniffdogsniff.Entries.Entry.Properties.{
  find_property-add_property, find_property-remove_property, add_property-Ascending,
}
use sniffdogsniff.Entries.Entry.RoundTrip.{
  IsEntry, entry_bytes, properties_bytes, read_search_entry-write_search_entry, has_valid_size_lem,
}
use sniffdogsniff.Wire.Results.{
  FindResultsReply, write_store_result_args, read_store_result_args, write_find_results_reply,
  read_find_results_reply,
}
use sniffdogsniff.Wire.Results.RoundTrip.{
  IsFindResultsReply, results_bytes, results_reply_bytes,
  read_store_result_args-write_store_result_args, read_find_results_reply-write_find_results_reply,
}
use sniffdogsniff.Config.{Section, lookup_value, lookup_strings}
use sniffdogsniff.Config.Lookup.{first_of, lookup_value_lem}
use sniffdogsniff.Config.Lines.{Line, header, pair}
use sniffdogsniff.Entries.SimHash.{SimHash, distance}
use sniffdogsniff.Entries.SimHash.Distance.{total_ones, distance-ones, distance_lem}

abbrev small_id : ℕ → KadId
small_id n = record { id = n ∷ replicate 15 0 }

small_id-IsKadId : (n : ℕ) → n < 256 → IsKadId (small_id n)
small_id-IsKadId n lt = record { size = refl; bytes = ground arith }

abbrev node : ℕ → KadNode
node n = new_node (small_id n) (n ∷ [])

abbrev one_node : KadBucket
one_node = record { height = 1; nodes = node 2 ∷ []; replacement_nodes = [] }

one_node-IsBucket : IsBucket one_node
unfolding Bucket.push_node Bucket.place_node Bucket.reorder Bucket.has_id sort empty_bucket new_node
one_node-IsBucket =
    push_node-IsBucket 7 (node 2) (empty_bucket 1) (omega arith) (empty_bucket-IsBucket 1)

push_node-Pushed_example :
    Pushed
      (node 3)
      one_node
      (Bucket.push_node 7 (node 3) one_node).0
      (Bucket.push_node 7 (node 3) one_node).1
    × ((ns rs : List KadNode) × Placed 7 (node 3) one_node ns rs
        × Holds (Bucket.push_node 7 (node 3) one_node).1 ns rs)
push_node-Pushed_example = push_node-Pushed 7 (node 3) one_node one_node-IsBucket

remove_node-Removed_example :
    Removed
      (small_id 2)
      one_node
      (Bucket.remove_node (small_id 2) one_node).0
      (Bucket.remove_node (small_id 2) one_node).1
remove_node-Removed_example = remove_node-Removed (small_id 2) one_node one_node-IsBucket

push_node-IsTable_example :
    (found : Bool) × (t' : KadTable) × (Table.push_node 7 (node 2) (new_table (small_id 1))
      ≡ some (found, t'))
    × IsTable t'
unfolding new_node
push_node-IsTable_example =
    push_node-IsTable 7 (node 2) (new_table (small_id 1))
      (new_table-IsTable (small_id 1) (small_id-IsKadId 1 (omega arith)))
      (small_id-IsKadId 2 (omega arith)) (omega arith)

-- The table of the node 1 that knows the node 2.
abbrev one_table : KadTable
one_table = record (new_table (small_id 1)) {
  buckets = set (new_table (small_id 1)).buckets 1 one_node;
}

abbrev table_of : Option (Bool × KadTable) → KadTable
table_of none = new_table (small_id 0)
table_of (some (found, t)) = t

pushed_table : table_of (Table.push_node 7 (node 2) (new_table (small_id 1))) ≡ one_table
unfolding Table.push_node Table.in_bucket Table.new_table Table.make_buckets same_node operator_eq
    operator_minus height bytes_eq Bucket.push_node Bucket.place_node Bucket.reorder Bucket.has_id
    sort empty_bucket new_node
pushed_table = refl

one_table-IsTable : IsTable one_table
unfolding new_node
one_table-IsTable =
    let (found, t', e, h) =
      push_node-IsTable 7 (node 2) (new_table (small_id 1))
        (new_table-IsTable (small_id 1) (small_id-IsKadId 1 (omega arith)))
        (small_id-IsKadId 2 (omega arith)) (omega arith) in
    subst IsTable (sym (ap table_of e) ∙ pushed_table) h

remove_node-IsTable_example :
    (found : Bool) × (t' : KadTable) × (Table.remove_node (small_id 2) one_table ≡ some (found, t'))
    × IsTable t'
remove_node-IsTable_example =
    remove_node-IsTable (small_id 2) one_table one_table-IsTable (small_id-IsKadId 2 (omega arith))

get_closest_to-Answer_example :
    (r : List KadNode) × (get_closest_to one_table (small_id 6) 3 ≡ some r)
    × Answer (small_id 6) 3 (get_all_nodes one_table.buckets) r
unfolding operator_eq Table.new_table new_node
get_closest_to-Answer_example =
    get_closest_to-Answer one_table (small_id 6) 3 one_table-IsTable
      (small_id-IsKadId 6 (omega arith)) refl

distance_metric_example :
    ((value (operator_minus (small_id 1) (small_id 2)) ≡ 0) ↔ (small_id 1 ≡ small_id 2))
    × (operator_minus (small_id 1) (small_id 2) ≡ operator_minus (small_id 2) (small_id 1))
    × (value (operator_minus (small_id 1) (small_id 4))
        ≤ value (operator_minus (small_id 1) (small_id 2))
          + value (operator_minus (small_id 2) (small_id 4)))
    × ((operator_minus (small_id 1) (small_id 2) ≡ operator_minus (small_id 1) (small_id 4))
        ↔ (small_id 2 ≡ small_id 4))
distance_metric_example =
    Metric.distance_metric (small_id 1) (small_id 2) (small_id 4) (small_id-IsKadId 1 (omega arith))
      (small_id-IsKadId 2 (omega arith)) (small_id-IsKadId 4 (omega arith))

abbrev some_ping : PingArgs
some_ping = record { nonce = 5; id = small_id 3; address = 104 ∷ 105 ∷ [] }

abbrev other_ping : PingArgs
other_ping = record { nonce = 0; id = small_id 0; address = [] }

some_ping-IsPingArgs : IsPingArgs some_ping
some_ping-IsPingArgs = record {
  nonce = omega arith;
  id = small_id-IsKadId 3 (omega arith);
  address = ground arith;
  short = omega arith;
}

abbrev find_three : FindNodeArgs
find_three = record { target_id = small_id 3 }

abbrev some_query : FindResultsArgs
some_query = record { query = 104 ∷ 105 ∷ [] }

abbrev two_nodes : FindNodeReply
two_nodes = record { nearest = (small_id 2, 104 ∷ []) ∷ (small_id 3, 105 ∷ []) ∷ [] }

two_nodes-IsFindNodeReply : IsFindNodeReply two_nodes
unfolding value reply_bytes entries_bytes le_bytes
two_nodes-IsFindNodeReply = record {
  up = ground arith;
  entries = ((small_id-IsKadId 2 (omega arith), tt), ((small_id-IsKadId 3 (omega arith), tt), tt));
  few = omega arith;
  short = omega arith;
}

abbrev no_sha : List ℕ → List ℕ
no_sha bs = replicate 32 0

abbrev some_entry : SearchEntry
some_entry = record {
  hash = replicate 32 0;
  sim_hash = small_id 5;
  title = 104 ∷ [];
  url = 105 ∷ [];
  type = 0;
  properties = (0, 106 ∷ []) ∷ (2, 107 ∷ []) ∷ [];
}

abbrev empty_entry : SearchEntry
empty_entry = new_search_entry no_sha (small_id 0) [] [] 0 []

some_entry-IsEntry : IsEntry no_sha some_entry
some_entry-IsEntry = record {
  hash = refl;
  sim_hash = small_id-IsKadId 5 (omega arith);
  title = ground arith;
  url = ground arith;
  type = omega arith;
  up = ground arith;
  properties = ground arith;
  few = omega arith;
}

read_search_entry-write_search_entry_example :
    RoundTrip (write_search_entry some_entry) (read_search_entry no_sha empty_entry) some_entry
unfolding entry_bytes properties_bytes le_bytes
read_search_entry-write_search_entry_example =
    read_search_entry-write_search_entry no_sha empty_entry some_entry some_entry-IsEntry
      (omega arith)

abbrev some_results : FindResultsReply
some_results = record { nodes = two_nodes; results = some_entry ∷ [] }

some_results-IsFindResultsReply : IsFindResultsReply no_sha some_results
unfolding results_reply_bytes results_bytes reply_bytes entries_bytes entry_bytes properties_bytes
    le_bytes
some_results-IsFindResultsReply = record {
  nodes = two_nodes-IsFindNodeReply;
  results = (some_entry-IsEntry, tt);
  few = omega arith;
  short = omega arith;
}

read_find_results_reply-write_find_results_reply_example :
    RoundTrip
      (write_find_results_reply some_results)
      (read_find_results_reply no_sha empty_entry (record { nodes = no_nodes; results = [] }))
      some_results
read_find_results_reply-write_find_results_reply_example =
    read_find_results_reply-write_find_results_reply no_sha empty_entry some_results
      some_results-IsFindResultsReply

abbrev two_lines : List Line
two_lines = header (110 ∷ []) ∷ pair (107 ∷ []) (118 ∷ []) ∷ []

abbrev some_section : Section
some_section = record { name = []; values_list = (107 ∷ [], 118 ∷ []) ∷ (107 ∷ [], 119 ∷ []) ∷ [] }

abbrev small_hash : ℕ → SimHash
small_hash n = record { id = small_id n }
