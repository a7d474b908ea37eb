-- ===== src/Wire/Messages/RoundTrip.antt =====
-- The arguments and replies of the remote calls are read as they were written.
use sniffdogsniff.Shared.{
  ℕ, ◌^◌, ◌≤◌, ◌<◌, ◌≡◌, refl, sym, subst, ◌∙◌, true, false, some, List, [], ◌∷◌, ◌++◌,
  append_assoc, append-nil, length, length-append, All, All-append, All-append_right, arith, ltb,
  ◌==◌,
}
use sniffdogsniff.Kad.Id.{KadId, IsKadId, operator_lt, value}
use sniffdogsniff.Kad.Id.Value.{operator_lt-value}
use sniffdogsniff.Wire.Buf.{◌>>=◌, pure, le_bytes, read_string}
use sniffdogsniff.Wire.Buf.Views.{Writes, Reads, Writes-then, Reads-then, Reads-pure, Reads-map}
use sniffdogsniff.Wire.Buf.Numbers.{
  length-le_bytes, write_uint32-Writes, write_uint64-Writes, read_uint32-Reads, read_uint64-Reads,
}
use sniffdogsniff.Wire.Buf.Strings.{write_string-Writes}
use sniffdogsniff.Wire.Buf.Trips.{
  RoundTrip, round_trip, Sendable, Sendable-Reads, id-Writes, id-Reads, Writes-pure,
}
use sniffdogsniff.Wire.Messages.{
  PingArgs, PingReply, FindNodeArgs, FindNodeReply, FindResultsArgs, kept, write_ping_args,
  read_ping_args, write_ping_reply, read_ping_reply, write_find_node_args, read_find_node_args,
  write_find_results_args, read_find_results_args, set_nearest, write_entries,
  write_find_node_reply, enter, read_entry, read_entries, read_find_node_reply,
}

-- Arguments of a ping that can be sent.
pub record IsPingArgs (args : PingArgs) : Type 0 where
  pub nonce : args.nonce < 2 ^ 64
  pub id : IsKadId args.id
  pub address : Sendable args.address
  pub short : length args.address < 2 ^ 62

unfoldable pub ping_bytes : PingArgs → List ℕ
ping_bytes args = le_bytes 8 args.nonce ++ ((args.address ++ (0 ∷ [])) ++ args.id.id)

pub ping_args-Writes :
    (args : PingArgs) → IsPingArgs args → Writes (write_ping_args args) (ping_bytes args)
unfolding write_ping_args ping_bytes
ping_args-Writes args h =
    Writes-then _ _ _ _ (write_uint64-Writes args.nonce)
      (Writes-then _ _ _ _ (write_string-Writes args.address) (id-Writes args.id h.id))

pub ping_args-Reads :
    (old args : PingArgs) → IsPingArgs args → Reads (read_ping_args old) (ping_bytes args) args
unfolding read_ping_args ping_bytes
ping_args-Reads old args h = Reads-then _ _ _ _ _ _ (read_uint64-Reads args.nonce h.nonce) (
    Reads-then _ _ _ _ _ _ (Sendable-Reads args.address h.address) (
      Reads-map _ (λ bs. record { nonce = args.nonce; id = kept old.id bs; address = args.address })
        _ _ (id-Reads args.id h.id)))

-- The arguments of a ping, with a nonce of 64 bits, an identifier of 16 bytes and an address that is
-- not empty, has no 0 in it and is shorter than 2 ^ 62 bytes, are read as they were written, whatever
pub ping_bytes_short : (args : PingArgs) → IsPingArgs args → length (ping_bytes args) ≤ 2 ^ 63
unfolding ping_bytes
ping_bytes_short args h = omega (
  arith,
  length-append (le_bytes 8 args.nonce) ((args.address ++ (0 ∷ [])) ++ args.id.id),
  length-append (args.address ++ (0 ∷ [])) args.id.id,
  length-append args.address (0 ∷ []),
  length-le_bytes 8 args.nonce,
  h.id.size,
  h.short,
)

pub ping_reply-Writes :
    (reply : PingReply) → Writes (write_ping_reply reply) (le_bytes 8 reply.nonce)
unfolding write_ping_reply
ping_reply-Writes reply = write_uint64-Writes reply.nonce

pub ping_reply-Reads :
    (reply : PingReply)
    → reply.nonce < 2 ^ 64
    → Reads read_ping_reply (le_bytes 8 reply.nonce) reply
unfolding read_ping_reply
ping_reply-Reads reply lt =
    Reads-map _ (λ n. record { nonce = n }) _ _ (read_uint64-Reads reply.nonce lt)

-- the object they are read into held.
pub read_ping_args-write_ping_args :
    (old args : PingArgs)
    → IsPingArgs args
    → RoundTrip (write_ping_args args) (read_ping_args old) args
read_ping_args-write_ping_args old args h =
    round_trip _ _ (ping_bytes args) args (ping_args-Writes args h) (ping_args-Reads old args h)
      (ping_bytes_short args h)

-- A reply to a ping, with a nonce of 64 bits, is read as it was written.
pub read_ping_reply-write_ping_reply :
    (reply : PingReply)
    → reply.nonce < 2 ^ 64
    → RoundTrip (write_ping_reply reply) read_ping_reply reply
read_ping_reply-write_ping_reply reply lt =
    round_trip _ _ (le_bytes 8 reply.nonce) reply (ping_reply-Writes reply)
      (ping_reply-Reads reply lt) (omega (arith, length-le_bytes 8 reply.nonce))

pub find_node_args-Writes :
    (args : FindNodeArgs)
    → IsKadId args.target_id
    → Writes (write_find_node_args args) args.target_id.id
unfolding write_find_node_args
find_node_args-Writes args h = id-Writes args.target_id h

pub find_node_args-Reads :
    (old args : FindNodeArgs)
    → IsKadId args.target_id
    → Reads (read_find_node_args old) args.target_id.id args
unfolding read_find_node_args
find_node_args-Reads old args h =
    Reads-map _ (λ bs. record { target_id = kept old.target_id bs }) _ _ (id-Reads args.target_id h)

-- whatever the object they are read into held.
pub read_find_node_args-write_find_node_args :
    (old args : FindNodeArgs)
    → IsKadId args.target_id
    → RoundTrip (write_find_node_args args) (read_find_node_args old) args
read_find_node_args-write_find_node_args old args h =
    round_trip _ _ args.target_id.id args (find_node_args-Writes args h)
      (find_node_args-Reads old args h) (omega (arith, h.size))

-- The arguments of a search for results are read as they were written, when the query is not empty, has
-- no 0 in it and is shorter than 2 ^ 62 bytes.
pub read_find_results_args-write_find_results_args :
    (args : FindResultsArgs)
    → Sendable args.query
    → length args.query < 2 ^ 62
    → RoundTrip (write_find_results_args args) read_find_results_args args
unfolding write_find_results_args read_find_results_args
read_find_results_args-write_find_results_args args h lt =
    round_trip _ _ (args.query ++ (0 ∷ [])) args (write_string-Writes args.query)
      (Reads-map _ (λ s. record { query = s }) _ _ (Sendable-Reads args.query h))
      (omega (arith, length-append args.query (0 ∷ [])))

abbrev pub Entry : Type 0
Entry = KadId × List ℕ

abbrev pub IsEntry : Entry → Type 0
IsEntry e = IsKadId e.0 × Sendable e.1

-- The keys go up.
abbrev pub Ascending : List Entry → Type 0
Ascending [] = Unit {0}
Ascending (e ∷ m) = All (λ x. value e.0 < value x.0) m × Ascending m

unfoldable pub entries_bytes : List Entry → List ℕ
entries_bytes [] = []
entries_bytes ((id, addr) ∷ m) = id.id ++ ((addr ++ (0 ∷ [])) ++ entries_bytes m)

unfoldable pub reply_bytes : FindNodeReply → List ℕ
reply_bytes reply = le_bytes 4 (length reply.nearest) ++ entries_bytes reply.nearest

entries-Writes : (m : List Entry) → All IsEntry m → Writes (write_entries m) (entries_bytes m)
unfolding write_entries entries_bytes
entries-Writes [] h = Writes-pure
entries-Writes ((id, addr) ∷ m) (h, hs) =
    Writes-then _ _ _ _ (id-Writes id h.0)
      (Writes-then _ _ _ _ (write_string-Writes addr) (entries-Writes m hs))

set_nearest_last :
    (id : KadId) (addr : List ℕ) (m : List Entry)
    → IsKadId id
    → All IsEntry m
    → All (λ x. value x.0 < value id) m
    → set_nearest id addr m ≡ some (m ++ ((id, addr) ∷ []))
unfolding set_nearest
set_nearest_last id addr [] h hm lt = refl
set_nearest_last id addr ((k, a) ∷ m) h (hk, hm) (lt, lts) =
    rw (below, set_nearest_last id addr m h hm lts, set_nearest) refl
  where
    below : operator_lt k id ≡ some true
    below =
        let unlike : (value k == value id) ≡ false = ground arith in
        let less : ltb (value k) (value id) ≡ true = ground arith in
        operator_lt-value k id hk.0 h ∙ rw (unlike, less) refl

before :
    (acc m : List Entry) (e : Entry)
    → Ascending (acc ++ (e ∷ m))
    → All (λ x. value x.0 < value e.0) acc
before [] m e h = tt
before (x ∷ acc) m e (lt, h) =
    ((All-append_right (λ y. value x.0 < value y.0) acc (e ∷ m) lt).0, before acc m e h)

read_entry-Reads :
    (id : KadId) (addr : List ℕ) (acc : List Entry)
    → IsEntry (id, addr)
    → All IsEntry acc
    → All (λ x. value x.0 < value id) acc
    → Reads (read_entry acc) (id.id ++ (addr ++ (0 ∷ []))) (acc ++ ((id, addr) ∷ []))
unfolding read_entry enter
read_entry-Reads id addr acc h ha lt = Reads-then _ _ _ _ _ _ (id-Reads id h.0) (
    subst
      (λ ys. Reads (read_string >>= λ s. enter (some id.id) s acc) ys (acc ++ ((id, addr) ∷ [])))
      (append-nil (addr ++ (0 ∷ []))) (Reads-then _ _ _ _ _ _ (Sendable-Reads addr h.1) entered))
  where
    entered : Reads (enter (some id.id) addr acc) [] (acc ++ ((id, addr) ∷ []))
    entered b rest r = (b, rw (set_nearest_last id addr acc h.0 ha lt, enter) refl, r)

read_entries-Reads :
    (m acc : List Entry)
    → All IsEntry acc
    → All IsEntry m
    → Ascending (acc ++ m)
    → Reads (read_entries (length m) acc) (entries_bytes m) (acc ++ m)
unfolding read_entries entries_bytes
read_entries-Reads [] acc ha hm up =
    subst (Reads (pure acc) []) (sym (append-nil acc)) (Reads-pure acc)
read_entries-Reads ((id, addr) ∷ m) acc ha (h, hm) up =
    subst
      (λ ys.
        Reads (read_entry acc >>= λ m'. read_entries (length m) m') ys (acc ++ ((id, addr) ∷ m)))
      (append_assoc id.id (addr ++ (0 ∷ [])) (entries_bytes m))
      (Reads-then _ _ _ _ _ _ (read_entry-Reads id addr acc h ha (before acc m (id, addr) up)) (
        subst (λ a. Reads (read_entries (length m) (acc ++ ((id, addr) ∷ []))) (entries_bytes m) a)
          joined
          (read_entries-Reads m (acc ++ ((id, addr) ∷ [])) (All-append IsEntry acc _ ha (h, tt)) hm
            (subst Ascending (sym joined) up))))
  where
    joined : (acc ++ ((id, addr) ∷ [])) ++ m ≡ acc ++ ((id, addr) ∷ m)
    joined = append_assoc acc ((id, addr) ∷ []) m

-- A reply that can be sent.
pub record IsFindNodeReply (reply : FindNodeReply) : Type 0 where
  pub up : Ascending reply.nearest
  pub entries : All IsEntry reply.nearest
  pub few : length reply.nearest < 2 ^ 32
  pub short : length (reply_bytes reply) ≤ 2 ^ 63

abbrev pub no_nodes : FindNodeReply
no_nodes = record { nearest = [] }

pub find_node_reply-Writes :
    (reply : FindNodeReply)
    → IsFindNodeReply reply
    → Writes (write_find_node_reply reply) (reply_bytes reply)
unfolding write_find_node_reply reply_bytes
find_node_reply-Writes reply h =
    Writes-then _ _ _ _ (write_uint32-Writes (length reply.nearest))
      (entries-Writes reply.nearest h.entries)

pub find_node_reply-Reads :
    (reply : FindNodeReply)
    → IsFindNodeReply reply
    → Reads (read_find_node_reply no_nodes) (reply_bytes reply) reply
unfolding read_find_node_reply reply_bytes
find_node_reply-Reads reply h =
    Reads-then _ _ _ _ _ _ (read_uint32-Reads (length reply.nearest) h.few) (
      Reads-map _ (λ m. record { nearest = m }) _ _
        (read_entries-Reads reply.nearest [] tt h.entries h.up))

-- A reply to a search for a node is read into an empty one as it was written. Its identifiers have 16
-- bytes and go up, its addresses are not empty and have no 0 in them, and it has less than 2 ^ 32
-- entries and 2 ^ 63 bytes at most.
pub read_find_node_reply-write_find_node_reply :
    (reply : FindNodeReply)
    → IsFindNodeReply reply
    → RoundTrip (write_find_node_reply reply) (read_find_node_reply no_nodes) reply
read_find_node_reply-write_find_node_reply reply h =
    round_trip _ _ (reply_bytes reply) reply (find_node_reply-Writes reply h)
      (find_node_reply-Reads reply h) h.short
