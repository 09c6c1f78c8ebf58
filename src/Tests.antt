-- ===== src/Tests.antt =====
-- Concrete runs of the modules, and the theorems at concrete inputs.
mod Memory
mod Store
mod Directory
mod Log
mod Nodes
mod Watching
mod Completing
mod Crashing
mod Cluster
mod Assembling
mod Client
mod Serving
mod Demo
mod Requests
mod Sizes
mod Following
