-- ===== src/Examples.antt =====
-- Runs of the models at concrete inputs: a network of function memories and a cache of one key.
mod Setup
mod Placements
mod Indexes
mod Histories
mod Servers
mod Generated
mod Others
mod Rates
mod Files
mod Connections
