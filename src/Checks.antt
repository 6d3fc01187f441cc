-- ===== src/Checks.antt =====
-- Tests of the definitions on small inputs, and the theorems at inputs that meet their hypotheses.
mod Samples
mod Limits
mod Records
mod Journals
mod Deliveries
mod Loops
mod Spools
mod Configurations
mod Clients
mod Daemons
mod Logs
mod Payloads
mod Tools
mod Controls
mod Arrivals
