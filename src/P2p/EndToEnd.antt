-- ===== src/P2p/EndToEnd.antt =====
-- `find_node` and `ping` of the client, answered by the server of another node.
use sniffdogsniff.Shared.{
  ℕ, ◌^◌, ◌≤◌, ◌≡◌, refl, sym, ap, subst, ◌∙◌, true, false, Option, none, some, List, [], ◌∷◌,
  append-nil, length, length-append, arith, ==_self,
}
use sniffdogsniff.Kad.Id.{KadId, IsKadId, operator_eq}
use sniffdogsniff.Wire.Outcome.{ok}
use sniffdogsniff.Wire.Buf.{Buf, M, new_buf, le_bytes}
use sniffdogsniff.Wire.Buf.Views.{Writing, Reading, Writes, Reads, new_buf-Writing}
use sniffdogsniff.Wire.Buf.Numbers.{length-le_bytes}
use sniffdogsniff.Wire.Messages.{
  PingArgs, FindNodeArgs, write_ping_args, read_ping_args, write_ping_reply, write_find_node_args,
  read_find_node_args, write_find_node_reply,
}
use sniffdogsniff.Wire.Messages.RoundTrip.{
  IsFindNodeReply, IsPingArgs, no_nodes, ping_bytes, ping_bytes_short, entries_bytes, reply_bytes,
  ping_args-Writes, ping_args-Reads, find_node_args-Writes, find_node_args-Reads, ping_reply-Writes,
  ping_reply-Reads, find_node_reply-Writes, find_node_reply-Reads,
}
use sniffdogsniff.Entries.Db.{Database}
use sniffdogsniff.Run.{Op, ◌>>=◌, pure, bind_finished, finished, crashed}
use sniffdogsniff.LocalNode.{LocalNode, find_k_closest_to, lock, unlock, k_closest}
use sniffdogsniff.LocalNode
use sniffdogsniff.P2p.{
  MessageRequestHeader, request_bytes, response_bytes, err_null, func_ping, func_find_node,
}
use sniffdogsniff.P2p.Server.{Call, with_buf, dispatch, handle_request}
use sniffdogsniff.P2p.Server
use sniffdogsniff.P2p.Client.{Exchange, sent_messages}
use sniffdogsniff.P2p.Client
use sniffdogsniff.P2p.Calls.{
  Arrives, Delivers, reply_header, handle_request_lem, sent_messages_lem, send_rpc_request_lem,
}

-- A call of a method of the buffer that reads.
Reads-all :
    {A : Type 0} (m : M A) (ys : List ℕ) (a : A)
    → Reads m ys a
    → (b : Buf) → Reading b ys
    → (b' : Buf) × (m b ≡ ok (a, b'))
Reads-all m ys a r b rd =
    let (b', e, rd') = r b [] (subst (Reading b) (sym (append-nil ys)) rd) in (b', e)

Writes-all :
    (m : M (Unit {0})) (ys : List ℕ)
    → Writes m ys
    → length ys ≤ 2 ^ 63
    → (b : Buf) × (m new_buf ≡ ok (tt, b)) × Writing b ys
Writes-all m ys w le = w new_buf [] new_buf-Writing (omega arith)

with_buf_lem :
    {S A : Type 0} (m : M A) (b b' : Buf) (a : A) (s : S)
    → m b ≡ ok (a, b')
    → with_buf m b s ≡ finished (a, b') s
with_buf_lem m b b' a s e = rw (e, with_buf) refl

module _ (D : Database) (sha256 : List ℕ → List ℕ) where
  find_node_local :
      (id : KadId) (n : LocalNode D sha256) (m : List (KadId × List ℕ))
      → n.locked ≡ false
      → find_k_closest_to id n.table ≡ some m
      → LocalNode.find_node D sha256 id n ≡ finished m n
  unfolding LocalNode.find_node lock unlock k_closest
  find_node_local id n m e f =
      let n' : LocalNode D sha256 = record n { locked = true } in
      bind_finished (lock D sha256)
        (λ u. k_closest D sha256 id >>= λ nearest. unlock D sha256 >>= λ u. pure nearest) n n' tt
        (rw (e, lock) refl)
      ∙ bind_finished (k_closest D sha256 id) (λ nearest. unlock D sha256 >>= λ u. pure nearest) n'
          n' m
          (ap
            (λ (o : Option (List (KadId × List ℕ))). elim o [
              | none ↦ crashed
              | some m ↦ finished m n'
            ])
            f)
      ∙ ap (λ l. finished m (record n { locked = l })) (sym e)

  find_node_dispatch :
      (c : Call) (id : KadId) (n : LocalNode D sha256) (m : List (KadId × List ℕ))
      → IsKadId id
      → n.locked ≡ false
      → find_k_closest_to id n.table ≡ some m
      → IsFindNodeReply (record { nearest = m })
      → (b : Buf) → Reading b id.id
      → (reply : Buf) × (dispatch D sha256 c func_find_node b n ≡ finished (err_null, reply) n)
        × Writing reply (reply_bytes (record { nearest = m }))
  unfolding dispatch Server.find_node
  find_node_dispatch c id n m h e f g b rd =
      let (b', r) =
        Reads-all _ id.id (record { target_id = id })
          (find_node_args-Reads (record { target_id = c.junk }) (record { target_id = id }) h) b
          rd in
      let (reply, w, wr) =
        Writes-all _ _ (find_node_reply-Writes (record { nearest = m }) g) g.short in
      let reads = with_buf (read_find_node_args (record { target_id = c.junk })) in
      let writes : List (KadId × List ℕ) → Op (LocalNode D sha256) (Unit {0} × Buf) =
        λ nearest. with_buf (write_find_node_reply (record { nearest = nearest })) new_buf in
      let rest : FindNodeArgs × Buf → Op (LocalNode D sha256) (ℕ × Buf) = λ r.
        LocalNode.find_node D sha256 r.0.target_id >>= λ nearest.
        writes nearest >>= λ w. pure (err_null, w.1) in
      (
        reply,
        bind_finished (reads b) rest n n (record { target_id = id }, b')
              (with_buf_lem (read_find_node_args (record { target_id = c.junk })) b b' _ n r)
            ∙ bind_finished (LocalNode.find_node D sha256 id)
                (λ nearest. writes nearest >>= λ w. pure (err_null, w.1)) n n m
                (find_node_local id n m e f)
            ∙ bind_finished (writes m) (λ w. pure (err_null, w.1)) n n (tt, reply)
                (with_buf_lem (write_find_node_reply (record { nearest = m })) new_buf reply tt n
                  w),
        wr,
      )

  ping_local :
      (id : KadId) (address : List ℕ) (n : LocalNode D sha256)
      → operator_eq n.table.self_node.id id ≡ false
      → LocalNode.ping D sha256 id address n ≡ finished tt n
  unfolding LocalNode.ping
  ping_local id address n e = rw e refl

  ping_dispatch :
      (c : Call) (args : PingArgs) (n : LocalNode D sha256)
      → IsPingArgs args
      → operator_eq n.table.self_node.id args.id ≡ false
      → (b : Buf) → Reading b (ping_bytes args)
      → (reply : Buf) × (dispatch D sha256 c func_ping b n ≡ finished (err_null, reply) n)
        × Writing reply (le_bytes 8 args.nonce)
  unfolding dispatch Server.ping
  ping_dispatch c args n h e b rd =
      let old : PingArgs = record { nonce = 0; id = c.junk; address = [] } in
      let (b', r) = Reads-all _ (ping_bytes args) args (ping_args-Reads old args h) b rd in
      let (reply, w, wr) =
        Writes-all _ _ (ping_reply-Writes (record { nonce = args.nonce }))
          (omega (arith, length-le_bytes 8 args.nonce)) in
      let writes : PingArgs → Op (LocalNode D sha256) (Unit {0} × Buf) =
        λ args. with_buf (write_ping_reply (record { nonce = args.nonce })) new_buf in
      let rest : PingArgs × Buf → Op (LocalNode D sha256) (ℕ × Buf) = λ r.
        LocalNode.ping D sha256 r.0.id r.0.address >>= λ u.
        writes r.0 >>= λ w. pure (err_null, w.1) in
      (
        reply,
        bind_finished (with_buf (read_ping_args old) b) rest n n (args, b')
              (with_buf_lem (read_ping_args old) b b' _ n r)
            ∙ bind_finished (LocalNode.ping D sha256 args.id args.address)
                (λ u. writes args >>= λ w. pure (err_null, w.1)) n n tt
                (ping_local args.id args.address n e)
            ∙ bind_finished (writes args) (λ w. pure (err_null, w.1)) n n (tt, reply)
                (with_buf_lem (write_ping_reply (record { nonce = args.nonce })) new_buf reply tt n
                  w),
        wr,
      )

  -- A search for a node, from the client to the server of a node whose mutex is free and whose table
  -- has `m` as the nodes that are closest to the identifier, of 16 bytes; `m` is a reply that can be
  -- sent. If the header of the client arrives whole, in one call of `recv`, and the arguments in any
  -- pieces, the server finishes with an answer and an unchanged node; if the header of the answer arrives
  -- whole and its body in any pieces, the client finishes with exactly `m`.
  pub find_node_lem :
      (id : KadId) (n : LocalNode D sha256) (m : List (KadId × List ℕ)) (call : List ℕ)
      → IsKadId id
      → n.locked ≡ false
      → find_k_closest_to id n.table ≡ some m
      → IsFindNodeReply (record { nearest = m })
      → length call ≡ 8
      → (args : Buf) × (h q r bs : List ℕ) × (write_find_node_args
            (record { target_id = id })
            new_buf
          ≡ ok (tt, args))
        × (sent_messages func_find_node call args ≡ ok (h, q))
        × ((c : Call)
            → c.header ≡ some h
            → Arrives q c.body
            → handle_request D sha256 c n ≡ finished (some (r ∷ bs ∷ [], err_null)) n)
        × ((x : Exchange)
            → x.id ≡ call
            → x.header_sent ≡ true
            → x.args_sent ≡ true
            → x.header ≡ some r
            → Arrives bs x.body
            → Client.find_node no_nodes id x ≡ ok (some (record { nearest = m })))
  unfolding Client.find_node reply_bytes
  find_node_lem id n m call h e f g k =
      let (args, a, w) =
        Writes-all _ _ (find_node_args-Writes (record { target_id = id }) h)
          (omega (arith, h.size)) in
      let req : MessageRequestHeader = record {
        funcode = func_find_node;
        id = call;
        datasize = length id.id;
      } in
      let bs = reply_bytes (record { nearest = m }) in
      (
        args,
        request_bytes req,
        id.id,
        response_bytes (reply_header req bs),
        bs,
        a,
        sent_messages_lem func_find_node call id.id args w,
        λ c header body.
            handle_request_lem D sha256 c req id.id bs n n header body refl (omega (arith, h.size))
              k
              (omega (
                arith,
                length-append (le_bytes 4 (length m)) (entries_bytes m),
                length-le_bytes 4 (length m),
              ))
              (find_node_dispatch c id n m h e f g),
        λ x xid hs as' header body.
            let d : Delivers req bs x = record {
              id = xid;
              header_sent = hs;
              args_sent = as';
              header = header;
              body = body;
            } in
            let (b, s, rd) =
              send_rpc_request_lem func_find_node call id.id bs args x w k g.short d in
            let (b', t) =
              Reads-all _ bs (record { nearest = m })
                (find_node_reply-Reads (record { nearest = m }) g) b rd in
            rw (a, s, t) refl,
      )

  -- A ping, of a node other than the one that is pinged, is answered by the server, and the client
  -- returns without an exception, if in the two directions the header arrives whole, in one call of
  -- `recv`, and the body in any pieces.
  pub ping_lem :
      (args : PingArgs) (n : LocalNode D sha256) (call : List ℕ)
      → IsPingArgs args
      → operator_eq n.table.self_node.id args.id ≡ false
      → length call ≡ 8
      → (a : Buf) × (h q r bs : List ℕ) × (write_ping_args args new_buf ≡ ok (tt, a))
        × (sent_messages func_ping call a ≡ ok (h, q))
        × ((c : Call)
            → c.header ≡ some h
            → Arrives q c.body
            → handle_request D sha256 c n ≡ finished (some (r ∷ bs ∷ [], err_null)) n)
        × ((x : Exchange)
            → x.id ≡ call
            → x.header_sent ≡ true
            → x.args_sent ≡ true
            → x.header ≡ some r
            → Arrives bs x.body
            → Client.ping args.nonce args.id args.address x ≡ ok (some err_null))
  unfolding Client.ping
  ping_lem args n call h e k =
      let (a, w', w) = Writes-all _ _ (ping_args-Writes args h) (ping_bytes_short args h) in
      let q = ping_bytes args in
      let req : MessageRequestHeader = record {
        funcode = func_ping;
        id = call;
        datasize = length q;
      } in
      let bs = le_bytes 8 args.nonce in
      (
        a,
        request_bytes req,
        q,
        response_bytes (reply_header req bs),
        bs,
        w',
        sent_messages_lem func_ping call q a w,
        λ c header body.
            handle_request_lem D sha256 c req q bs n n header body refl (ping_bytes_short args h) k
              (omega (arith, length-le_bytes 8 args.nonce)) (ping_dispatch c args n h e),
        λ x xid hs as' header body.
            let d : Delivers req bs x = record {
              id = xid;
              header_sent = hs;
              args_sent = as';
              header = header;
              body = body;
            } in
            let (b, s, rd) =
              send_rpc_request_lem func_ping call q bs a x w k
                (omega (arith, length-le_bytes 8 args.nonce)) d in
            let (b', t) =
              Reads-all _ bs (record { nonce = args.nonce })
                (ping_reply-Reads (record { nonce = args.nonce }) h.nonce) b rd in
            rw (w', s, t, ==_self args.nonce) refl,
      )
