-- ===== src/Examples.antt =====
-- Runs at concrete inputs, one module for each component, over the sample rows of `Samples`.
mod Samples
mod Executions
mod Effects
mod Approvals
mod Rules
mod Trees
mod Plans
mod Mornings
mod Requests
mod Runs
mod Candidates
mod Mailboxes
mod Decisions
mod Reviews
