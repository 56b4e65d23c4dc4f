-- ===== src/Tests.antt =====
-- Runs at concrete inputs, and the theorems applied there.
mod Managers
mod Ciphers
mod Servers
mod Interface
mod Channels
mod Races
mod Start
mod Clusters
mod Tables
mod Groups
mod Sharing
