-- ===== src/Tests/Services.antt =====
-- The theorems at concrete files, texts, databases and calls.
use sniffdogsniff.Shared.{
  ℕ, ◌≡◌, refl, true, false, Option, some, none, List, [], ◌∷◌, map, length, replicate, Perm, min,
  sort, place, arith,
}
use sniffdogsniff.Shared.Optional.{◌>>=◌}
use sniffdogsniff.Kad.Id.{KadId, kad_id_length, operator_eq, operator_minus, operator_lt, height}
use sniffdogsniff.Kad.Node.{KadNode, new_node}
use sniffdogsniff.Kad.Bucket.{empty_bucket}
use sniffdogsniff.Kad.Table.{
  KadTable, get_all_nodes, get_k_closest_to, get_closest_to, spread, fill, nodes_at, new_table,
  make_buckets, closer,
}
use sniffdogsniff.Kad.File.{done, read_file, write_file}
use sniffdogsniff.Kad.File.RoundTrip.{IsStored, Stored, read_file-write_file}
use sniffdogsniff.Text.{find, split}
use sniffdogsniff.Http.{
  HttpRequest, http_get, http_ok, get_word, newline, http_unescape, set_field, set_values,
  parse_http_attrs, parse_target, parse_http_first_line, parse_http_request,
}
use sniffdogsniff.Http.Escape.{escape_by, http_unescape-escape_by}
use sniffdogsniff.Http.Values.{parse_http_request_lem}
use sniffdogsniff.Shared.Bytes.{bytes_eq}
use sniffdogsniff.Shared.{◌++◌, ◌==◌}
use sniffdogsniff.Text.{strip, split_from}
use sniffdogsniff.Wire.Outcome.{fault, ok}
use sniffdogsniff.Wire.Buf.{Buf, new_buf, le_bytes}
use sniffdogsniff.Wire.Buf.Trips.{RoundTrip}
use sniffdogsniff.Wire.Messages.{PingArgs, write_ping_args, write_find_node_args, set_nearest}
use sniffdogsniff.Wire.Messages.RoundTrip.{
  Entry, Ascending, IsFindNodeReply, no_nodes, reply_bytes, entries_bytes,
}
use sniffdogsniff.Entries.Entry.{
  SearchEntry, write_search_entry, read_search_entry, has_valid_size, properties_size,
}
use sniffdogsniff.Entries.Entry.RoundTrip.{entry_bytes}
use sniffdogsniff.Entries.SimHash.Init.{init}
use sniffdogsniff.Entries.SimHash.Init.Weights.{all_hashes, vote_bytes, init_lem}
use sniffdogsniff.Entries.Db.{Database, Db, returned, set_time, do_search, insert_result}
use sniffdogsniff.Entries.Db.Unread.{do_search_faults}
use sniffdogsniff.Entries.Db.Insert.{insert_result_lem}
use sniffdogsniff.Run.{finished, blocked}
use sniffdogsniff.LocalNode.{
  LocalNode, enter_nodes, find_k_closest_to, find_node, find_results, store_result, ping_thread,
}
use sniffdogsniff.LocalNode.Search.{Search, out_of_fuel, all_rounds}
use sniffdogsniff.LocalNode.Search.Rounds.{all_rounds_end}
use sniffdogsniff.Wire.Results.{FindResultsReply}
use sniffdogsniff.Shared.{◌≢◌, ℕ}
use sniffdogsniff.LocalNode.Lookup.{Probes, lookup_rounds}
use sniffdogsniff.LocalNode.Lookup as LookedUp
use sniffdogsniff.LocalNode.Lookup.Rounds.{lookup_rounds_end}
use sniffdogsniff.Wire.Messages.{FindNodeReply}
use sniffdogsniff.LocalNode.Nearest.{entry_of, find_k_closest_to_lem}
use sniffdogsniff.LocalNode.Threads.{IsLocalNode, ping_thread-IsLocalNode}
use sniffdogsniff.P2p.{err_null, err_type_argument, func_ping, func_find_node}
use sniffdogsniff.P2p.Server.{Call, caught, handle_request}
use sniffdogsniff.P2p.Client.{Exchange, sent_messages}
use sniffdogsniff.P2p.Client
use sniffdogsniff.P2p.Calls.{Arrives}
use sniffdogsniff.P2p.EndToEnd.{find_node_lem, ping_lem}
use sniffdogsniff.P2p.Locked.{caught-store_result_large}
use sniffdogsniff.Tests.{
  small_id, small_id-IsKadId, node, one_table, one_table-IsTable, no_sha, some_entry,
  some_entry-IsEntry,
}

abbrev stored_node : KadNode
stored_node = record { id = small_id 2; address = 104 ∷ []; last_seen = 7; stales = 1 }

abbrev small_table : KadTable
small_table = record {
  self_node = node 1;
  buckets = record { height = 0; nodes = stored_node ∷ []; replacement_nodes = [] } ∷ [];
}

abbrev other_table : KadTable
other_table = record {
  self_node = node 3;
  buckets = record { height = 0; nodes = []; replacement_nodes = [] } ∷ [];
}

stored_node-IsStored : IsStored stored_node
stored_node-IsStored = record {
  id = small_id-IsKadId 2 (omega arith);
  some_address = omega arith;
  short_address = omega arith;
  address = ground arith;
  seen = omega arith;
  stales = omega arith;
}

small_table-Stored : Stored 0 small_table.buckets
small_table-Stored = (
  record {
    height = refl;
    few = omega arith;
    nodes = (stored_node-IsStored, tt);
    few_replacements = omega arith;
    replacements = tt;
  },
  tt,
)

read_file-write_file_example : read_file (write_file small_table) other_table ≡ (
  done,
  record { self_node = record (node 3) { id = small_id 1 }; buckets = small_table.buckets },
)
unfolding new_node
read_file-write_file_example =
    read_file-write_file small_table other_table (small_id-IsKadId 1 (omega arith))
      (small_id-IsKadId 3 (omega arith)) small_table-Stored refl

abbrev a_b : List ℕ
a_b = 97 ∷ 44 ∷ 98 ∷ []

abbrev two_tokens : List (List ℕ)
two_tokens = (97 ∷ 98 ∷ []) ∷ (99 ∷ 100 ∷ []) ∷ []

init_lem_example :
    init two_tokens ≡ (all_hashes two_tokens >>= λ hs. some (record { id = vote_bytes 16 0 hs }))
init_lem_example = init_lem two_tokens

abbrev pub stored_value : Option (List ℕ × List ℕ) → Option (List ℕ)
stored_value none = none
stored_value (some e) = some e.1

pub get_put :
    (key data' : List ℕ) (s' : Option (List ℕ × List ℕ))
    → ◌≡◌ {A = Option (Option (List ℕ × List ℕ))} (some (some (key, data'))) (some s')
    → stored_value s' ≡ some data'
get_put key data' none e = cc
get_put key data' (some r) e = cc

-- A database that holds the entry that was put last.
abbrev pub cell : Database
cell = record {
  Store = Option (List ℕ × List ℕ);
  get = λ key s. stored_value s;
  get_unflagged = λ key s. none;
  put = λ key data' s. some (some (key, data'));
  del = λ key s. none;
  scan = λ s. elim s [ none ↦ [] | some e ↦ e ∷ [] ];
  get-put = λ key data' s s' e. get_put key data' s' e;
  get_refused = λ key s. refl;
}

abbrev pub full_db : Db cell no_sha
full_db = record { timestamps = []; store = some (some (1 ∷ [], 2 ∷ [])) }

do_search_faults_example : do_search cell no_sha [] (97 ∷ 98 ∷ []) full_db ≡ fault
do_search_faults_example =
    do_search_faults cell no_sha [] (97 ∷ 98 ∷ []) (1 ∷ []) (2 ∷ []) [] full_db
      (some (1 ∷ [], 2 ∷ [])) refl refl

insert_result_lem_example :
    (insert_result cell no_sha some_entry 100 101 full_db ≡ (
      returned tt,
      record {
        timestamps = (replicate 32 0, 100) ∷ [];
        store = some (some (replicate 32 0, entry_bytes some_entry));
      },
    ))
    × (cell.get (replicate 32 0) (some (replicate 32 0, entry_bytes some_entry))
        ≡ some (entry_bytes some_entry))
    × ((old : SearchEntry)
        → RoundTrip (write_search_entry some_entry) (read_search_entry no_sha old) some_entry)
unfolding set_time has_valid_size properties_size
insert_result_lem_example =
    insert_result_lem cell no_sha some_entry 100 101 full_db (some (1 ∷ [], 2 ∷ []))
      (some (replicate 32 0, entry_bytes some_entry)) refl some_entry-IsEntry refl refl
      (omega arith, tt)

abbrev pub some_node : LocalNode cell no_sha
some_node = record { table = one_table; db = full_db; locked = false }

some_node-IsLocalNode : IsLocalNode cell no_sha some_node
some_node-IsLocalNode = record { table = one_table-IsTable; free = refl }

abbrev found_nodes : List Entry
found_nodes = (small_id 2, 2 ∷ []) ∷ []

found_nodes-IsFindNodeReply : IsFindNodeReply (record { nearest = found_nodes })
unfolding reply_bytes entries_bytes le_bytes
found_nodes-IsFindNodeReply = record {
  up = ground arith;
  entries = ((small_id-IsKadId 2 (omega arith), tt), tt);
  few = omega arith;
  short = omega arith;
}

abbrev call_id : List ℕ
call_id = replicate 8 7

find_k_closest_to_found : find_k_closest_to (small_id 6) one_table ≡ some found_nodes
unfolding find_k_closest_to enter_nodes set_nearest get_k_closest_to get_closest_to spread fill
    nodes_at new_table make_buckets operator_eq operator_minus height sort place closer operator_lt
    new_node empty_bucket
find_k_closest_to_found = refl

find_node_lem_example :
    (args : Buf) × (h q r bs : List ℕ) × (write_find_node_args
        (record { target_id = small_id 6 })
        new_buf
      ≡ ok (tt, args))
    × (sent_messages func_find_node call_id args ≡ ok (h, q))
    × ((c : Call)
        → c.header ≡ some h
        → Arrives q c.body
        → handle_request cell no_sha c some_node
          ≡ finished (some (r ∷ bs ∷ [], err_null)) some_node)
    × ((x : Exchange)
        → x.id ≡ call_id
        → x.header_sent ≡ true
        → x.args_sent ≡ true
        → x.header ≡ some r
        → Arrives bs x.body
        → Client.find_node no_nodes (small_id 6) x ≡ ok (some (record { nearest = found_nodes })))
find_node_lem_example =
    find_node_lem cell no_sha (small_id 6) some_node found_nodes call_id
      (small_id-IsKadId 6 (omega arith)) refl find_k_closest_to_found found_nodes-IsFindNodeReply
      refl

abbrev some_ping : PingArgs
some_ping = record { nonce = 9; id = small_id 5; address = 104 ∷ [] }

ping_lem_example :
    (a : Buf) × (h q r bs : List ℕ) × (write_ping_args some_ping new_buf ≡ ok (tt, a))
    × (sent_messages func_ping call_id a ≡ ok (h, q))
    × ((c : Call)
        → c.header ≡ some h
        → Arrives q c.body
        → handle_request cell no_sha c some_node
          ≡ finished (some (r ∷ bs ∷ [], err_null)) some_node)
    × ((x : Exchange)
        → x.id ≡ call_id
        → x.header_sent ≡ true
        → x.args_sent ≡ true
        → x.header ≡ some r
        → Arrives bs x.body
        → Client.ping 9 (small_id 5) (104 ∷ []) x ≡ ok (some err_null))
unfolding operator_eq new_table new_node
ping_lem_example =
    ping_lem cell no_sha some_ping some_node call_id
      (record {
        nonce = omega arith;
        id = small_id-IsKadId 5 (omega arith);
        address = tt;
        short = omega arith;
      })
      refl refl

abbrev large_entry : SearchEntry
large_entry = record some_entry { url = replicate 30000 97 }

large_entry_size : has_valid_size large_entry ≡ false
unfolding has_valid_size properties_size
large_entry_size = refl

abbrev some_call : Call
some_call = record { header = none; body = []; junk = small_id 0; now = 100; now' = 101 }

caught-store_result_large_example :
    (n' : LocalNode cell no_sha) × (caught cell no_sha some_call
        (store_result cell no_sha large_entry 100 101)
        some_node
      ≡ finished (err_type_argument, new_buf) n')
    × ((id : KadId) → find_node cell no_sha id n' ≡ blocked)
    × ((query : List ℕ) → find_results cell no_sha query n' ≡ blocked)
    × ((se' : SearchEntry) (t t' : ℕ) → store_result cell no_sha se' t t' n' ≡ blocked)
caught-store_result_large_example =
    caught-store_result_large cell no_sha some_call large_entry 100 101 some_node
      (some (1 ∷ [], 2 ∷ [])) refl refl large_entry_size

find_k_closest_to_lem_example :
    (ns : List KadNode) × (m : List Entry) × (get_k_closest_to one_table (small_id 6) ≡ some ns)
    × (find_k_closest_to (small_id 6) one_table ≡ some m)
    × Perm m (map entry_of ns)
    × Ascending m
    × (length ns ≡ min kad_id_length (length (get_all_nodes one_table.buckets)))
unfolding operator_eq new_table new_node
find_k_closest_to_lem_example =
    find_k_closest_to_lem one_table (small_id 6) one_table-IsTable
      (small_id-IsKadId 6 (omega arith)) refl

ping_thread-IsLocalNode_example :
    (n' : LocalNode cell no_sha) × (ping_thread cell no_sha true 7 (small_id 3) (104 ∷ []) some_node
      ≡ finished tt n')
    × IsLocalNode cell no_sha n'
ping_thread-IsLocalNode_example =
    ping_thread-IsLocalNode cell no_sha true 7 (small_id 3) (104 ∷ []) some_node
      some_node-IsLocalNode (small_id-IsKadId 3 (omega arith))

http_unescape-escape_by_example :
    http_unescape (escape_by (λ c. c == 97) (97 ∷ 37 ∷ 43 ∷ 32 ∷ []))
    ≡ some (97 ∷ 37 ∷ 43 ∷ 32 ∷ [])
http_unescape-escape_by_example =
    http_unescape-escape_by (λ c. c == 97) (97 ∷ 37 ∷ 43 ∷ 32 ∷ []) (ground arith)

-- GET /?q=a HTTP, and its only header h:1.
abbrev request_line : List ℕ
request_line = get_word ++ (32 ∷ 47 ∷ 63 ∷ 113 ∷ 61 ∷ 97 ∷ 32 ∷ 72 ∷ 84 ∷ 84 ∷ 80 ∷ [])

abbrev behind_line : List ℕ
behind_line = (104 ∷ 58 ∷ 49 ∷ []) ++ (newline ++ newline)

abbrev no_request : HttpRequest
no_request = record {
  url = [];
  method = none;
  version = [];
  headers = [];
  values = [];
  data_bytes = [];
}

abbrev get_request : HttpRequest
get_request = record {
  url = 47 ∷ [];
  method = some http_get;
  version = 72 ∷ 84 ∷ 84 ∷ 80 ∷ [];
  headers = [];
  values = (113 ∷ [], 97 ∷ []) ∷ [];
  data_bytes = [];
}

line_found :
    find newline (request_line ++ (newline ++ behind_line)) ≡ some (request_line, behind_line)
unfolding find strip
line_found = refl

line_parsed : parse_http_first_line no_request request_line ≡ some (http_ok, get_request)
unfolding parse_http_first_line parse_target parse_http_attrs set_values http_unescape set_field
    split split_from find strip bytes_eq
line_parsed = refl

headers_found : find (newline ++ newline) behind_line ≡ some (104 ∷ 58 ∷ 49 ∷ [], [])
unfolding find strip
headers_found = refl

parse_http_request_lem_example :
    (code : ℕ) × (r' : HttpRequest) × (parse_http_request no_request
        (request_line ++ (newline ++ behind_line))
      ≡ some (code, r'))
    × (r'.values ≡ [])
parse_http_request_lem_example =
    parse_http_request_lem no_request get_request (request_line ++ (newline ++ behind_line))
      request_line behind_line (104 ∷ 58 ∷ 49 ∷ []) [] line_found line_parsed refl headers_found

abbrev seen_at : ℕ → KadNode
seen_at n = record { id = small_id n; address = n ∷ []; last_seen = n; stales = 0 }

abbrev two_targets : Search
two_targets = record {
  results = [];
  probed_empty = [];
  failed = [];
  target_nodes = seen_at 9 ∷ seen_at 4 ∷ [];
}

abbrev no_answer : KadNode → Option FindResultsReply
no_answer kn = none

all_rounds_end_example : all_rounds no_answer two_targets ≢ out_of_fuel
all_rounds_end_example = all_rounds_end no_answer two_targets

abbrev one_answer : KadNode → Option FindNodeReply
one_answer kn = some (record { nearest = (small_id 7, 7 ∷ []) ∷ [] })

abbrev no_probes : Probes
no_probes = record { probed = []; failed = []; discovered = [] }

lookup_rounds_end_example :
    lookup_rounds 2 (λ k. false) (node 1) one_answer (small_id 6) (seen_at 9 ∷ []) no_probes
    ≢ LookedUp.out_of_fuel
lookup_rounds_end_example =
    lookup_rounds_end (λ k. false) (node 1) one_answer (small_id 6) (seen_at 9 ∷ []) no_probes
