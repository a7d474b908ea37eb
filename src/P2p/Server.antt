-- ===== src/P2p/Server.antt =====
-- p2p/sdsp2pserver.cpp: the handlers and `handleRequest`. The loop over the sockets is not modelled.
use sniffdogsniff.Shared.{
  ℕ, zero, suc, ◌&&◌, Option, none, some, List, [], ◌∷◌, replicate, ltb, ◌==◌, if◌then◌else◌,
}
use sniffdogsniff.Kad.Id.{KadId}
use sniffdogsniff.Wire.Outcome.{ok, fault, hang}
use sniffdogsniff.Wire.Buf.{Buf, M, new_buf, cells, fetch, size}
use sniffdogsniff.Wire.Messages.{
  read_ping_args, write_ping_reply, read_find_node_args, write_find_node_reply,
  read_find_results_args,
}
use sniffdogsniff.Wire.Results.{read_store_result_args, write_find_results_reply}
use sniffdogsniff.Entries.Db.{Database, default_entry}
use sniffdogsniff.Run.{Op, ◌>>=◌, ◌>>◌, pure, finished, raised, crashed, blocked, aborted}
use sniffdogsniff.LocalNode.{LocalNode}
use sniffdogsniff.LocalNode
use sniffdogsniff.P2p.{
  MessageRequestHeader, MessageResponseHeader, request_of, response_bytes, receive, err_null,
  err_recv_request, err_nofunct, err_type_argument, func_ping, func_find_node, func_store_result,
  func_find_results,
}

-- What one call of `handleRequest` meets: what `recv` returns for the header and for the body, the
-- bytes of an identifier that was never written to, and the time before and after an insertion.
pub record Call : Type 0 where
  pub header : Option (List ℕ)
  pub body : List (Option (List ℕ))
  pub junk : KadId
  pub now : ℕ
  pub now' : ℕ

-- A method of a buffer, as a step of the server.
abbrev pub with_buf : {S A : Type 0} → M A → Buf → Op S (A × Buf)
with_buf m b s = elim (m b) [ ok r ↦ finished r s | fault ↦ crashed | hang ↦ blocked ]

module _ (D : Database) (sha256 : List ℕ → List ℕ) (c : Call) where
  -- The handlers return the error code and the reply.
  unfoldable pub ping : Buf → Op (LocalNode D sha256) (ℕ × Buf)
  ping args = do
    (ping_args, b) ←
        with_buf (read_ping_args (record { nonce = 0; id = c.junk; address = [] })) args
    LocalNode.ping D sha256 ping_args.id ping_args.address
    (u, reply) ← with_buf (write_ping_reply (record { nonce = ping_args.nonce })) new_buf
    pure (err_null, reply)

  unfoldable pub find_node : Buf → Op (LocalNode D sha256) (ℕ × Buf)
  find_node args = do
    (find_args, b) ← with_buf (read_find_node_args (record { target_id = c.junk })) args
    nearest ← LocalNode.find_node D sha256 find_args.target_id
    (u, reply) ← with_buf (write_find_node_reply (record { nearest = nearest })) new_buf
    pure (err_null, reply)

  -- An exception of the local node becomes an error code.
  unfoldable pub caught : Op (LocalNode D sha256) (Unit {0}) → Op (LocalNode D sha256) (ℕ × Buf)
  caught m n = elim (m n) [
    | finished u n' ↦ finished (err_null, new_buf) n'
    | raised n' ↦ finished (err_type_argument, new_buf) n'
    | crashed ↦ crashed
    | blocked ↦ blocked
    | aborted ↦ aborted
  ]

  unfoldable pub store_result : Buf → Op (LocalNode D sha256) (ℕ × Buf)
  store_result args = do
    (store_args, b) ←
        with_buf (read_store_result_args sha256 (record { se = default_entry sha256 })) args
    caught (LocalNode.store_result D sha256 store_args.se c.now c.now')

  unfoldable pub find_results : Buf → Op (LocalNode D sha256) (ℕ × Buf)
  find_results args = do
    (find_args, b) ← with_buf read_find_results_args args
    (nearest, results) ← LocalNode.find_results D sha256 find_args.query
    (u, reply) ←
        with_buf
          (write_find_results_reply
            (record { nodes = record { nearest = nearest }; results = results }))
          new_buf
    pure (err_null, reply)

  -- The switch over the function code.
  unfoldable pub dispatch : ℕ → Buf → Op (LocalNode D sha256) (ℕ × Buf)
  dispatch funcode args =
      if funcode == func_ping
      then ping args
      else if funcode == func_find_node
      then find_node args
      else if funcode == func_store_result
      then store_result args
      else if funcode == func_find_results
      then find_results args
      else pure (err_nofunct, new_buf)

  -- What is sent after the switch: the header, and the bytes of the reply.
  unfoldable pub answer :
      MessageRequestHeader → ℕ → Buf → Op (LocalNode D sha256) (List (List ℕ) × ℕ)
  answer req errcode reply n =
      let resp : MessageResponseHeader = record {
        funcode = req.funcode;
        errcode = errcode;
        id = req.id;
        datasize = if errcode == err_null then size reply else 0;
      } in
      if ltb 0 (size reply) && (errcode == err_null)
      then elim (fetch (size reply) (cells reply.buffer)) [
        | none ↦ crashed
        | some bs ↦ finished (response_bytes resp ∷ bs ∷ [], errcode) n
      ]
      else finished (response_bytes resp ∷ [], errcode) n

  -- `goto rpc_fail` before the header of the reply has been filled in.
  unfoldable pub rpc_fail : Op (LocalNode D sha256) (List (List ℕ) × ℕ)
  rpc_fail = pure (
    response_bytes
          (record { funcode = 0; errcode = err_recv_request; id = replicate 8 0; datasize = 0 })
        ∷ [],
    err_recv_request,
  )

  unfoldable pub handle_body : MessageRequestHeader → Op (LocalNode D sha256) (List (List ℕ) × ℕ)
  handle_body req n = elim (receive req.datasize c.body) [
    | ok (zero, args) ↦ (dispatch req.funcode args >>= λ r. answer req r.0 r.1) n
    | ok (suc left, args) ↦ rpc_fail n
    | fault ↦ crashed
    | hang ↦ blocked
  ]

  -- The messages that are sent, and what is returned; -1 is `none`, and nothing is sent.
  unfoldable pub handle_request : Op (LocalNode D sha256) (Option (List (List ℕ) × ℕ))
  handle_request = elim c.header [
    | some [] ↦ pure none
    | none ↦ do r ← rpc_fail; pure (some r)
    | some (x ∷ bs) ↦ elim (request_of (x ∷ bs)) [
      | none ↦ do r ← rpc_fail; pure (some r)
      | some req ↦ do r ← handle_body req; pure (some r)
    ]
  ]
