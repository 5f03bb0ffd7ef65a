-- ===== src/Kademlia.antt =====
-- The Kademlia overlay of the net plugin: src/plugins/net_plugin/kademlia.
pub mod Hash
pub mod Node
pub mod KBucket
pub mod Routing
mod Tests
