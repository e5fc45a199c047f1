-- ===== src/Scenarios.antt =====
-- Concrete inputs: a codec and an environment, and the theorems applied to them.
mod Toy
mod Transactions
mod Files
mod Writes
mod Batches
mod Access
mod Sessions
mod Indexes
mod Deadlines
mod Crashes
