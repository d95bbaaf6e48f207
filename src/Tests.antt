-- ===== src/Tests.antt =====
-- Runs of the theorems at concrete inputs.
mod Toy
mod Cluster
mod Nodes
mod Parts
mod Storage
mod Startup
mod Services
