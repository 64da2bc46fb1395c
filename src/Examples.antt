-- ===== src/Examples.antt =====
-- The theorems of the other modules at concrete inputs, by the part of the program that they are about.
pub mod Data
pub mod Configurations
pub mod Queues
pub mod Sids
pub mod Addresses
pub mod Switches
pub mod Pushes
pub mod Clients
pub mod Adapters
pub mod Documents
pub mod Replicas
pub mod Recovers
pub mod OwnSids
