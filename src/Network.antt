-- ===== src/Network.antt =====
-- internal/network: the node of the cluster, its protocols and its discovery of peers.
pub mod Node
pub mod Push
pub mod Heartbeat
pub mod Status
pub mod Bootstrap
pub mod Listen
pub mod Start
pub mod Dns
