-- ===== src/Examples.antt =====
-- The theorems applied to concrete inputs, and runs of the model.
mod Rpcs
mod Deploying
mod Transfers
mod Ownership
mod Keys
mod Balances
mod InMemory
mod Confirmation
mod Scanning
mod Statuses
mod Workers
mod Leases
mod Requests
mod Cycles
mod Relaying
