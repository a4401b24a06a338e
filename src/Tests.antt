-- ===== src/Tests.antt =====
-- The theorems on single inputs, and runs of the definitions.
mod Texts
mod Filters
mod Queries
mod Logs
mod LogQuery
mod LogIndex
mod Requests
mod States
mod Sorting
mod Runs
