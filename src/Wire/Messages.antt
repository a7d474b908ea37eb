-- ===== src/Wire/Messages.antt =====
-- p2p/p2p_common.h and p2p_common.cpp: the arguments and replies of the remote calls, without those
-- that carry search entries. Strings are lists of bytes.
pub mod RoundTrip
use sniffdogsniff.Shared.{
  ℕ, zero, suc, ◌+◌, Bool, true, false, Option, some, none, List, [], ◌∷◌, ◌++◌, length,
}
use sniffdogsniff.Shared.{if◌then◌else◌}
use sniffdogsniff.Kad.Id.{KadId, kad_id_length, operator_lt}
use sniffdogsniff.Wire.Outcome.{Outcome, ok, fault}
use sniffdogsniff.Wire.Buf.{
  Buf, M, ◌>>=◌, ◌>>◌, pure, write_bytes, read_bytes, write_string, read_string, write_uint32,
  read_uint32, write_uint64, read_uint64,
}

pub record PingArgs : Type 0 where
  pub nonce : ℕ
  pub id : KadId
  pub address : List ℕ

pub record PingReply : Type 0 where
  pub nonce : ℕ

pub record FindNodeArgs : Type 0 where
  pub target_id : KadId

-- `std::map<KadId, std::string>`: the entries in the order of the keys.
pub record FindNodeReply : Type 0 where
  pub nearest : List (KadId × List ℕ)

pub record FindResultsArgs : Type 0 where
  pub query : List ℕ

-- The destination array keeps its bytes when none are read.
abbrev pub kept : KadId → Option (List ℕ) → KadId
kept old none = old
kept old (some bs) = record { id = bs }

unfoldable pub write_ping_args : PingArgs → M (Unit {0})
write_ping_args args = do write_uint64 args.nonce; write_string args.address; write_bytes args.id.id

-- `old` is the object that `read` is called on.
unfoldable pub read_ping_args : PingArgs → M PingArgs
read_ping_args old = do
  nonce ← read_uint64
  address ← read_string
  bs ← read_bytes kad_id_length
  pure (record { nonce = nonce; id = kept old.id bs; address = address })

unfoldable pub write_ping_reply : PingReply → M (Unit {0})
write_ping_reply reply = write_uint64 reply.nonce

unfoldable pub read_ping_reply : M PingReply
read_ping_reply = do nonce ← read_uint64; pure (record { nonce = nonce })

unfoldable pub write_find_node_args : FindNodeArgs → M (Unit {0})
write_find_node_args args = write_bytes args.target_id.id

unfoldable pub read_find_node_args : FindNodeArgs → M FindNodeArgs
read_find_node_args old = do
  bs ← read_bytes kad_id_length
  pure (record { target_id = kept old.target_id bs })

unfoldable pub write_find_results_args : FindResultsArgs → M (Unit {0})
write_find_results_args args = write_string args.query

unfoldable pub read_find_results_args : M FindResultsArgs
read_find_results_args = do query ← read_string; pure (record { query = query })

-- `nearest[id] = addr`. The search for the key compares it with an equal key where the map has one, by
-- `operator<`, which then reads outside its arrays: `none`.
unfoldable pub set_nearest : KadId → List ℕ → List (KadId × List ℕ) → Option (List (KadId × List ℕ))
set_nearest id addr [] = some ((id, addr) ∷ [])
set_nearest id addr ((k, a) ∷ m) =
    let rest = set_nearest id addr m in
    elim (operator_lt k id) [
      | none ↦ none
      | some true ↦ elim rest [ none ↦ none | some m' ↦ some ((k, a) ∷ m') ]
      | some false ↦ some ((id, addr) ∷ (k, a) ∷ m)
    ]

unfoldable pub write_entries : List (KadId × List ℕ) → M (Unit {0})
write_entries [] = pure tt
write_entries ((id, addr) ∷ m) = do write_bytes id.id; write_string addr; write_entries m

-- `nearest.size()` is converted to 32 bits.
unfoldable pub write_find_node_reply : FindNodeReply → M (Unit {0})
write_find_node_reply reply = do write_uint32 (length reply.nearest); write_entries reply.nearest

-- A `KadId` starts with bytes that were never written, which the map compares when none are read: a
-- fault.
unfoldable pub enter : Option (List ℕ) → List ℕ → List (KadId × List ℕ) → M (List (KadId × List ℕ))
enter none addr m b = fault
enter (some bs) addr m b = elim (set_nearest (record { id = bs }) addr m) [
  | none ↦ fault
  | some m' ↦ ok (m', b)
]

-- The body of the loop.
unfoldable pub read_entry : List (KadId × List ℕ) → M (List (KadId × List ℕ))
read_entry m = do bs ← read_bytes kad_id_length; addr ← read_string; enter bs addr m

unfoldable pub read_entries : ℕ → List (KadId × List ℕ) → M (List (KadId × List ℕ))
read_entries zero m = pure m
read_entries (suc n) m = do m' ← read_entry m; read_entries n m'

-- `nearest` is not cleared first.
unfoldable pub read_find_node_reply : FindNodeReply → M FindNodeReply
read_find_node_reply old = do
  count ← read_uint32
  m ← read_entries count old.nearest
  pure (record { nearest = m })
