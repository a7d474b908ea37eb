-- ===== src/P2p/Client.antt =====
-- p2p/sdsp2pclient.cpp: the remote calls, on a connection that is open; P2p.Connection opens it.
use sniffdogsniff.Shared.{ℕ, ◌-◌, ◌^◌, Bool, ◌&&◌, Option, none, some, List, ◌==◌, if◌then◌else◌}
use sniffdogsniff.Shared.Bytes.{bytes_eq}
use sniffdogsniff.Kad.Id.{KadId}
use sniffdogsniff.Wire.Outcome.{Outcome, ok, fault, hang, ◌>>=◌}
use sniffdogsniff.Wire.Buf.{Buf, new_buf, cells, fetch, size}
use sniffdogsniff.Wire.Messages.{
  FindNodeReply, write_ping_args, read_ping_reply, write_find_node_args, read_find_node_reply,
  write_find_results_args,
}
use sniffdogsniff.Wire.Results.{FindResultsReply, write_store_result_args, read_find_results_reply}
use sniffdogsniff.Entries.Entry.{SearchEntry}
use sniffdogsniff.Entries.Db.{default_entry}
use sniffdogsniff.P2p.{
  MessageRequestHeader, request_bytes, response_of, receive, err_null, err_recv_request, err_req_id,
  func_ping, func_find_node, func_store_result,
}

-- One exchange on the connection: the identifier of the request, whether the two calls of `send` take
-- all of their bytes, and what `recv` returns for the header and for the body.
pub record Exchange : Type 0 where
  pub id : List ℕ
  pub header_sent : Bool
  pub args_sent : Bool
  pub header : Option (List ℕ)
  pub body : List (Option (List ℕ))

-- The `int` -2.
abbrev pub err_send : ℕ
err_send = 2 ^ 32 - 2

unfoldable pub request : ℕ → List ℕ → Buf → MessageRequestHeader
request funcode id args = record { funcode = funcode; id = id; datasize = size args }

-- The two messages of a request.
unfoldable pub sent_messages : ℕ → List ℕ → Buf → Outcome (List ℕ × List ℕ)
sent_messages funcode id args = elim (fetch (size args) (cells args.buffer)) [
  | none ↦ fault
  | some bs ↦ ok (request_bytes (request funcode id args), bs)
]

-- The reply whose header is received as `bs`. A body that is too short or too long sets the error code
-- of the reply, which nobody reads afterwards.
unfoldable pub reply_to : Exchange → List ℕ → Outcome (ℕ × Buf)
reply_to x bs = elim (response_of bs) [
  | none ↦ ok (err_recv_request, new_buf)
  | some resp ↦
      if resp.errcode == err_null
      then (if bytes_eq resp.id x.id
          then elim (receive resp.datasize x.body) [
            | ok (left, b) ↦ ok (err_null, b)
            | fault ↦ fault
            | hang ↦ hang
          ]
          else ok (err_req_id, new_buf))
      else ok (resp.errcode, new_buf)
]

-- The error code and the buffer of the reply.
unfoldable pub send_rpc_request : ℕ → Buf → Exchange → Outcome (ℕ × Buf)
send_rpc_request funcode args x = do
  sent ← sent_messages funcode x.id args
  if x.header_sent && x.args_sent
      then elim x.header [ none ↦ ok (err_recv_request, new_buf) | some bs ↦ reply_to x bs ]
      else ok (err_send, new_buf)

-- `if (ret != ERR_NULL) throw SdsP2PException(ret);`; an exception is `none`.
abbrev pub answered : {A : Type 0} → ℕ → Outcome (Option A) → Outcome (Option A)
answered ret rest = if ret == err_null then rest else ok none

-- `nonce` is what `rand` returned.
unfoldable pub ping : ℕ → KadId → List ℕ → Exchange → Outcome (Option ℕ)
ping nonce id address x = do
  (u, a) ← write_ping_args (record { nonce = nonce; id = id; address = address }) new_buf
  (ret, r) ← send_rpc_request func_ping a x
  answered ret
      (do (reply, b) ← read_ping_reply r; ok (if reply.nonce == nonce then some ret else none))

unfoldable pub find_node : FindNodeReply → KadId → Exchange → Outcome (Option FindNodeReply)
find_node old id x = do
  (u, a) ← write_find_node_args (record { target_id = id }) new_buf
  (ret, r) ← send_rpc_request func_find_node a x
  answered ret (do (reply, b) ← read_find_node_reply old r; ok (some reply))

unfoldable pub store_result : SearchEntry → Exchange → Outcome ℕ
store_result se x = do
  (u, a) ← write_store_result_args (record { se = se }) new_buf
  (ret, r) ← send_rpc_request func_store_result a x
  ok ret

-- The function code is that of `find_node`.
unfoldable pub find_results :
    (List ℕ → List ℕ) → FindResultsReply → List ℕ → Exchange → Outcome (Option FindResultsReply)
find_results sha256 old query x = do
  (u, a) ← write_find_results_args (record { query = query }) new_buf
  (ret, r) ← send_rpc_request func_find_node a x
  answered ret
      (do (reply, b) ← read_find_results_reply sha256 (default_entry sha256) old r; ok (some reply))
