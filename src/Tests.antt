-- ===== src/Tests.antt =====
-- Runs of the modelled code on concrete data, and the theorems at concrete arguments.
mod KeyTests
mod CommitTests
mod SnapshotTests
mod WalTests
mod LsmTests
mod LeaseTests
mod SearchTests
mod BranchTests
mod CompactTests
mod UnboundedTests
mod TransactionTests
