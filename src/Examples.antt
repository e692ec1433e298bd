-- ===== src/Examples.antt =====
-- Each theorem at a concrete input, a component a file.
mod KeyPools
mod Queues
mod Tokens
mod Applied
mod Matched
mod Checked
mod Fetched
mod Clustered
mod Ingested
mod Shortlisted
mod Funneled
