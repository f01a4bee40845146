-- ===== src/Tests.antt =====
-- Concrete data, the instances of the theorems at it, and tests.
mod Fixtures
mod Chain
mod Queue
mod Announcing
mod Publishing
mod Serving
mod CoreNode
mod Core
mod Utils
mod Eth
mod Store
mod Mains
mod Joining
