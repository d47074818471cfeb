-- ===== src/Examples.antt =====
-- Concrete inputs: a run of each theorem with hypotheses, and tests of the definitions.
mod Graphs
mod Resolving
mod Locals
mod Releases
mod Paths
mod Updating
mod Signing
mod Verifying
mod Contracts
mod Launches
mod Archives
