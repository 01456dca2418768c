-- ===== src/Examples.antt =====
-- Concrete inputs, at which the theorems of the other modules are applied.
mod Machine
mod Codes
mod Regions
mod Threads
mod Targets
mod Requests
mod Pools
mod Network
mod Arena
mod Served
mod Clients
mod Setup
