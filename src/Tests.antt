-- ===== src/Tests.antt =====
-- The theorems at concrete inputs, and runs of the model.
mod Balancers
mod Gates
mod Requests
mod Tunnels
mod Oracles
mod Chains
mod Signals
mod Setup
mod Reloads
mod Programs
