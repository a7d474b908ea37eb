-- ===== src/P2p/Calls.antt =====
-- A remote call: what the client asks for and what the server answers, with a connection that delivers
-- what is sent in pieces of any size.
use sniffdogsniff.Shared.{
  ℕ, ◌^◌, ◌≤◌, ◌<◌, ◌≡◌, refl, sym, ap, subst, ◌∙◌, true, Option, none, some, List, [], ◌∷◌, ◌++◌,
  map, length, All, arith, ltb, ◌==◌, if◌then◌else◌,
}
use sniffdogsniff.Shared.Bytes.{bytes_eq, bytes_eq_self}
use sniffdogsniff.Wire.Outcome.{ok, fault, hang}
use sniffdogsniff.Wire.Buf.{Buf, new_buf, size}
use sniffdogsniff.Wire.Buf.Views.{Writing, Reading}
use sniffdogsniff.Wire.Buf.Trips.{fetch-Writing}
use sniffdogsniff.Entries.Db.{Database}
use sniffdogsniff.Run.{pure, bind_finished, finished}
use sniffdogsniff.LocalNode.{LocalNode}
use sniffdogsniff.P2p.{
  MessageRequestHeader, MessageResponseHeader, request_bytes, request_of, response_bytes, receive,
  err_null, err_recv_request, err_req_id,
}
use sniffdogsniff.P2p.Receive.{
  IsPiece, joined, receive_lem, request_of-request_bytes, response_of-response_bytes,
}
use sniffdogsniff.P2p.Server.{Call, dispatch, answer, handle_body, handle_request}
use sniffdogsniff.P2p.Client.{Exchange, request, sent_messages, reply_to, send_rpc_request}

-- The pieces in which `bs` arrives.
pub record Arrives (bs : List ℕ) (body : List (Option (List ℕ))) : Type 0 where
  pub pieces : List (List ℕ)
  pub positive : All IsPiece pieces
  pub whole : joined pieces ≡ bs
  pub answers : body ≡ map some pieces

pub receive_arrived :
    (bs : List ℕ) (body : List (Option (List ℕ)))
    → Arrives bs body
    → length bs ≤ 2 ^ 63
    → (b : Buf) × (receive (length bs) body ≡ ok (0, b)) × Reading b bs
receive_arrived bs body a le =
    subst (λ body. (b : Buf) × (receive (length bs) body ≡ ok (0, b)) × Reading b bs)
      (sym a.answers)
      (subst
        (λ bs. (b : Buf) × (receive (length bs) (map some a.pieces) ≡ ok (0, b)) × Reading b bs)
        a.whole (receive_lem a.pieces a.positive (omega (arith, ap length a.whole))))

-- The header of the answer to a request, with `bs` as its body.
abbrev pub reply_header : MessageRequestHeader → List ℕ → MessageResponseHeader
reply_header req bs = record {
  funcode = req.funcode;
  errcode = err_null;
  id = req.id;
  datasize = length bs;
}

module _ (D : Database) (sha256 : List ℕ → List ℕ) where
  answer_lem :
      (c : Call) (req : MessageRequestHeader) (reply : Buf) (bs : List ℕ) (n : LocalNode D sha256)
      → Writing reply bs
      → 0 < length bs
      → answer D sha256 c req err_null reply n
        ≡ finished (response_bytes (reply_header req bs) ∷ bs ∷ [], err_null) n
  unfolding answer size
  answer_lem c req reply bs n w pos =
      let some_bytes : ltb 0 reply.buffer_size ≡ true = ground (arith, w.all) in
      rw (some_bytes, fetch-Writing reply bs w, answer)
        (ap
          (λ k.
            finished
              (
                response_bytes (record {
                  funcode = req.funcode;
                  errcode = err_null;
                  id = req.id;
                  datasize = k;
                })
                    ∷ bs
                    ∷ [],
                err_null,
              )
              n)
          w.all)

  -- The server answers a request that is handled with `bs`.
  pub handle_request_lem :
      (c : Call) (req : MessageRequestHeader) (q bs : List ℕ) (n n' : LocalNode D sha256)
      → c.header ≡ some (request_bytes req)
      → Arrives q c.body
      → req.datasize ≡ length q
      → length q ≤ 2 ^ 63
      → length req.id ≡ 8
      → 0 < length bs
      → ((b : Buf)
          → Reading b q
          → (reply : Buf) × (dispatch D sha256 c req.funcode b n ≡ finished (err_null, reply) n')
            × Writing reply bs)
      → handle_request D sha256 c n
        ≡ finished (some (response_bytes (reply_header req bs) ∷ bs ∷ [], err_null)) n'
  unfolding handle_request handle_body request_bytes
  handle_request_lem c req q bs n n' e a f le h pos d =
      let (b, r, rd) = receive_arrived q c.body a le in
      let (reply, g, w) = d b rd in
      let parsed : request_of (req.funcode ∷ (req.id ++ _)) ≡ some req =
        request_of-request_bytes req h (omega (arith, f, le)) in
      let handled : handle_body D sha256 c req n
          ≡ finished (response_bytes (reply_header req bs) ∷ bs ∷ [], err_null) n' =
        rw (f, r, handle_body)
          (bind_finished (dispatch D sha256 c req.funcode b) (λ r. answer D sha256 c req r.0 r.1) n
              n' (err_null, reply) g
            ∙ answer_lem c req reply bs n' w pos) in
      rw (e, parsed, handle_request)
        (bind_finished (handle_body D sha256 c req) (λ r. pure (some r)) n n' _ handled)

pub sent_messages_lem :
    (funcode : ℕ) (id q : List ℕ) (args : Buf)
    → Writing args q
    → sent_messages funcode id args
      ≡ ok (request_bytes (record { funcode = funcode; id = id; datasize = length q }), q)
unfolding sent_messages request size
sent_messages_lem funcode id q args w =
    rw (fetch-Writing args q w, sent_messages)
      (ap (λ k. ok (request_bytes (record { funcode = funcode; id = id; datasize = k }), q)) w.all)

-- The connection of the client delivers the header of an answer and its body.
pub record Delivers (req : MessageRequestHeader) (bs : List ℕ) (x : Exchange) : Type 0 where
  pub id : x.id ≡ req.id
  pub header_sent : x.header_sent ≡ true
  pub args_sent : x.args_sent ≡ true
  pub header : x.header ≡ some (response_bytes (reply_header req bs))
  pub body : Arrives bs x.body

reply_to_lem :
    (req : MessageRequestHeader) (bs : List ℕ) (x : Exchange) (b : Buf)
    → length req.id ≡ 8
    → length bs ≤ 2 ^ 63
    → x.id ≡ req.id
    → receive (length bs) x.body ≡ ok (0, b)
    → reply_to x (response_bytes (reply_header req bs)) ≡ ok (err_null, b)
unfolding reply_to
reply_to_lem req bs x b h le e r =
    ap
      (λ (o : Option MessageResponseHeader). elim o [
        | none ↦ ok (err_recv_request, new_buf)
        | some resp ↦
            if resp.errcode == err_null
            then (if bytes_eq resp.id x.id
                then elim (receive resp.datasize x.body) [
                  | ok (left, b) ↦ ok (err_null, b)
                  | fault ↦ fault
                  | hang ↦ hang
                ]
                else ok (err_req_id, new_buf))
            else ok (resp.errcode, new_buf)
      ])
      (response_of-response_bytes (reply_header req bs) h (omega arith))
    ∙ rw (e, bytes_eq_self req.id, r) refl

-- The client receives the body of the answer.
pub send_rpc_request_lem :
    (funcode : ℕ) (id q bs : List ℕ) (args : Buf) (x : Exchange)
    → Writing args q
    → length id ≡ 8
    → length bs ≤ 2 ^ 63
    → Delivers (record { funcode = funcode; id = id; datasize = length q }) bs x
    → (b : Buf) × (send_rpc_request funcode args x ≡ ok (err_null, b)) × Reading b bs
unfolding send_rpc_request
send_rpc_request_lem funcode id q bs args x w h le d =
    let (b, r, rd) = receive_arrived bs x.body d.body le in
    let replied =
      reply_to_lem (record { funcode = funcode; id = id; datasize = length q }) bs x b h le d.id
        r in
    (
      b,
      rw (d.header_sent, d.args_sent, d.header, sent_messages_lem funcode x.id q args w) replied,
      rd,
    )
