-- ===== src/Tests.antt =====
-- Runs at concrete inputs, and the theorems at inputs that meet their hypotheses.
mod Fixtures
mod Leases
mod Peers
mod Extensions
mod Requests
mod Handling
mod Clients
mod Accounts
mod HttpClients
mod Locking
mod Settings
mod Logs
mod Logins
mod Upgrades
mod Retention
mod Restarts
mod Starts
mod Setup
mod Answers
mod Registrations
