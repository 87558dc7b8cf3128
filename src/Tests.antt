-- ===== src/Tests.antt =====
-- Concrete runs: instances of what the model takes from Boost, and the theorems at small inputs.
mod Boost
mod Pools
mod Paths
mod Listings
mod Services
mod Scans
mod Navigator
mod Search
mod Launching
mod Scripts
mod Hashes
mod Hashed
mod Trees
mod Stored
mod Media
mod Writing
