-- ===== src/Tests.antt =====
-- Concrete runs of the model, and the theorems at concrete inputs that meet their hypotheses.
mod World
mod Rules
mod Calls
mod Handlers
mod Addresses
mod Files
mod Secrets
mod Twins
mod Inventory
mod Routes
mod Startup
mod Access
mod Demo
mod Run
mod Timing
mod Sending
