-- ===== src/Examples.antt =====
-- Concrete runs of the theorems.
mod Billing
mod Metrics
mod EventStore
mod Scoring
mod Live
mod Viewing
mod Access
mod Gateway
mod Housekeeper
mod Pipeline
mod Sandbox
mod Workspace
