-- ===== src/Wire/Results/RoundTrip.antt =====
-- The messages that carry search entries are read as they were written.
use sniffdogsniff.Shared.{
  ℕ, ◌^◌, ◌≤◌, ◌<◌, sym, subst, List, [], ◌∷◌, ◌++◌, append_assoc, append-nil, length, All,
}
use sniffdogsniff.Wire.Buf.{pure, le_bytes}
use sniffdogsniff.Wire.Buf.Views.{Writes, Reads, Writes-then, Reads-then, Reads-pure, Reads-map}
use sniffdogsniff.Wire.Buf.Numbers.{write_uint32-Writes, read_uint32-Reads}
use sniffdogsniff.Wire.Buf.Trips.{RoundTrip, round_trip, Writes-pure}
use sniffdogsniff.Wire.Messages.RoundTrip.{
  IsFindNodeReply, reply_bytes, no_nodes, find_node_reply-Writes, find_node_reply-Reads,
}
use sniffdogsniff.Wire.Results.{
  StoreResultArgs, FindResultsReply, write_store_result_args, read_store_result_args, write_results,
  read_results, write_find_results_reply, read_find_results_reply,
}
use sniffdogsniff.Entries.Entry.{SearchEntry}
use sniffdogsniff.Entries.Entry.RoundTrip.{IsEntry, entry_bytes, entry-Writes, entry-Reads}

unfoldable pub results_bytes : List SearchEntry → List ℕ
results_bytes [] = []
results_bytes (se ∷ ses) = entry_bytes se ++ results_bytes ses

unfoldable pub results_reply_bytes : FindResultsReply → List ℕ
results_reply_bytes reply =
    reply_bytes reply.nodes ++ (le_bytes 4 (length reply.results) ++ results_bytes reply.results)

module _ (sha256 : List ℕ → List ℕ) where
  results-Writes :
      (ses : List SearchEntry)
      → All (IsEntry sha256) ses
      → Writes (write_results ses) (results_bytes ses)
  unfolding write_results results_bytes
  results-Writes [] h = Writes-pure
  results-Writes (se ∷ ses) (h, hs) =
      Writes-then _ _ _ _ (entry-Writes se h.sim_hash) (results-Writes ses hs)

  results-Reads :
      (fresh : SearchEntry) (ses acc : List SearchEntry)
      → All (IsEntry sha256) ses
      → Reads (read_results sha256 fresh (length ses) acc) (results_bytes ses) (acc ++ ses)
  unfolding read_results results_bytes
  results-Reads fresh [] acc h = subst (Reads (pure acc) []) (sym (append-nil acc)) (Reads-pure acc)
  results-Reads fresh (se ∷ ses) acc (h, hs) =
      Reads-then _ _ _ _ _ _ (entry-Reads sha256 fresh se h) (
        subst
          (Reads (read_results sha256 fresh (length ses) (acc ++ (se ∷ []))) (results_bytes ses))
          (append_assoc acc (se ∷ []) ses) (results-Reads fresh ses (acc ++ (se ∷ [])) hs))

  -- The arguments to store an entry are read as they were written, whatever the object they are read
  -- into held, for an entry that can be sent and takes 2 ^ 63 bytes at most.
  pub read_store_result_args-write_store_result_args :
      (old args : StoreResultArgs)
      → IsEntry sha256 args.se
      → length (entry_bytes args.se) ≤ 2 ^ 63
      → RoundTrip (write_store_result_args args) (read_store_result_args sha256 old) args
  unfolding write_store_result_args read_store_result_args
  read_store_result_args-write_store_result_args old args h le =
      round_trip _ _ (entry_bytes args.se) args (entry-Writes args.se h.sim_hash)
        (Reads-map _ (λ se. record { se = se }) _ _ (entry-Reads sha256 old.se args.se h)) le

  -- A reply with nodes and entries that can be sent.
  pub record IsFindResultsReply (reply : FindResultsReply) : Type 0 where
    pub nodes : IsFindNodeReply reply.nodes
    pub results : All (IsEntry sha256) reply.results
    pub few : length reply.results < 2 ^ 32
    pub short : length (results_reply_bytes reply) ≤ 2 ^ 63

  -- A reply to a search for results is read into an empty one as it was written: its nodes make a reply
  -- to a search for a node, its entries can be sent, they are less than 2 ^ 32, and it takes 2 ^ 63
  -- bytes at most.
  pub read_find_results_reply-write_find_results_reply :
      (fresh : SearchEntry) (reply : FindResultsReply)
      → IsFindResultsReply reply
      → RoundTrip
          (write_find_results_reply reply)
          (read_find_results_reply sha256 fresh (record { nodes = no_nodes; results = [] }))
          reply
  unfolding write_find_results_reply read_find_results_reply results_reply_bytes
  read_find_results_reply-write_find_results_reply fresh reply h =
      round_trip _ _ (results_reply_bytes reply) reply
        (Writes-then _ _ _ _ (find_node_reply-Writes reply.nodes h.nodes) (
          Writes-then _ _ _ _ (write_uint32-Writes (length reply.results))
            (results-Writes reply.results h.results)))
        (Reads-then _ _ _ _ _ _ (find_node_reply-Reads reply.nodes h.nodes) (
          Reads-then _ _ _ _ _ _ (read_uint32-Reads (length reply.results) h.few) (
            Reads-map _ (λ ses. record { nodes = reply.nodes; results = ses }) _ _
              (results-Reads fresh reply.results [] h.results))))
        h.short
