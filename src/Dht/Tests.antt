-- ===== src/Dht/Tests.antt =====
-- Runs of the node's definitions on concrete values, and the theorems at concrete inputs.
mod Fixture
mod Values
mod Ids
mod Sorting
mod Tables
mod Peers
mod Network
mod Health
mod Keys
mod Requests
mod Systems
