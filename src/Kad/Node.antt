-- ===== src/Kad/Node.antt =====
-- kademlia/kadnode.h and kadnode.cpp, class KadNode. An address is its list of bytes; `last_seen` is
-- a time in seconds. `stales` only counts up or is reset here, so it is a natural number.
use sniffdogsniff.Shared.{ℕ, ◌+◌, Bool, List, ltb}
use sniffdogsniff.Kad.Id.{KadId, operator_eq}

pub record KadNode : Type 0 where
  pub id : KadId
  pub address : List ℕ
  pub last_seen : ℕ
  pub stales : ℕ

-- The constructor of an identifier and an address.
unfoldable pub new_node : KadId → List ℕ → KadNode
new_node id address = record { id = id; address = address; last_seen = 0; stales = 0 }

-- `now` is what `time(nullptr)` returns.
unfoldable pub seen_now : ℕ → KadNode → KadNode
seen_now now n = record n { last_seen = now }

unfoldable pub reset_stales : KadNode → KadNode
reset_stales n = record n { stales = 0 }

unfoldable pub increment_stales : KadNode → KadNode
increment_stales n = record n { stales = n.stales + 1 }

-- `operator==` compares the identifiers only.
unfoldable pub same_node : KadNode → KadNode → Bool
same_node a b = operator_eq a.id b.id

-- `operator<`: the node seen last comes first.
unfoldable pub node_before : KadNode → KadNode → Bool
node_before a b = ltb b.last_seen a.last_seen
