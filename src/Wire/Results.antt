-- ===== src/Wire/Results.antt =====
-- p2p/p2p_common.h and p2p_common.cpp: the messages that carry search entries. `FindResultsReply`
-- inherits the nodes of `FindNodeReply`.
pub mod RoundTrip
use sniffdogsniff.Shared.{
  ℕ, zero, suc, Bool, true, false, ◌&&◌, List, [], ◌∷◌, ◌++◌, length, ltb, ◌==◌,
}
use sniffdogsniff.Wire.Buf.{Buf, M, ◌>>=◌, ◌>>◌, pure, write_uint32, read_uint32}
use sniffdogsniff.Wire.Messages.{FindNodeReply, write_find_node_reply, read_find_node_reply}
use sniffdogsniff.Entries.Entry.{SearchEntry, write_search_entry, read_search_entry}

pub record StoreResultArgs : Type 0 where
  pub se : SearchEntry

pub record FindResultsReply : Type 0 where
  pub nodes : FindNodeReply
  pub results : List SearchEntry

unfoldable pub has_results : FindResultsReply → Bool
has_results reply = ltb 0 (length reply.results) && (length reply.nodes.nearest == 0)

unfoldable pub write_store_result_args : StoreResultArgs → M (Unit {0})
write_store_result_args args = write_search_entry args.se

unfoldable pub write_results : List SearchEntry → M (Unit {0})
write_results [] = pure tt
write_results (se ∷ ses) = do write_search_entry se; write_results ses

unfoldable pub write_find_results_reply : FindResultsReply → M (Unit {0})
write_find_results_reply reply = do
  write_find_node_reply reply.nodes
  write_uint32 (length reply.results)
  write_results reply.results

-- `sha256` is the function of the OpenSSL library.
module _ (sha256 : List ℕ → List ℕ) where
  unfoldable pub read_store_result_args : StoreResultArgs → M StoreResultArgs
  read_store_result_args old = do se ← read_search_entry sha256 old.se; pure (record { se = se })

  -- `fresh` is what the constructor of `SearchEntry` makes.
  unfoldable pub read_results : SearchEntry → ℕ → List SearchEntry → M (List SearchEntry)
  read_results fresh zero ses = pure ses
  read_results fresh (suc n) ses = do
    se ← read_search_entry sha256 fresh
    read_results fresh n (ses ++ (se ∷ []))

  unfoldable pub read_find_results_reply : SearchEntry → FindResultsReply → M FindResultsReply
  read_find_results_reply fresh old = do
    nodes ← read_find_node_reply old.nodes
    count ← read_uint32
    ses ← read_results fresh count old.results
    pure (record { nodes = nodes; results = ses })
