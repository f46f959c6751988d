-- ===== src/Examples.antt =====
-- Runs of the code on concrete inputs, one for each theorem that has conditions.
mod States
mod Chunks
mod Pages
mod Paths
mod Streams
mod Resumption
mod Sessions
mod Records
mod Jobs
mod Identities
mod Scans
mod Runs
mod Peers
