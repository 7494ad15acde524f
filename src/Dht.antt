-- ===== src/Dht.antt =====
-- The DHT node, src/core/protocol/p2p: identifiers, routing table, stored data, health checks.
pub mod Byte
pub mod Id
pub mod Table
pub mod Platform
pub mod Username
pub mod Store
pub mod Providers
pub mod Health
pub mod Message
pub mod Node
pub mod Registry
pub mod Rpc
pub mod Listener
pub mod Discover
pub mod System
pub mod Publish
pub mod Retrieve
pub mod Mappings
pub mod KeyMapper
pub mod Tests
