-- ===== src/Scenarios.antt =====
-- The theorems at concrete inputs: a library of functions, jobs, changes and machines, and what the
-- theorems say of them.
mod Setup
mod Plans
mod Jobs
mod Retries
mod Changes
mod Access
mod Logins
mod Market
mod Nodes
