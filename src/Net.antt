-- ===== src/Net.antt =====
-- The network plugin: src/plugins/net_plugin, without the routing table, which is in Kademlia.
pub mod Message
pub mod Bitset
pub mod IdBits
pub mod UserPool
pub mod Signature
pub mod Builder
pub mod KeyExchange
pub mod Packer
pub mod Validator
pub mod Service
pub mod IdMapping
pub mod Merger
mod Tests
