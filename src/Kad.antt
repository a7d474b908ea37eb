-- ===== src/Kad.antt =====
-- kademlia/: node identifiers, nodes, buckets and the routing table.
pub mod Id
pub mod Node
pub mod Bucket
pub mod Table
pub mod File
pub mod Hex
