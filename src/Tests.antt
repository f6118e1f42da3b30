-- ===== src/Tests.antt =====
-- The theorems applied to concrete inputs.
mod PoolRuns
mod SocksDialogue
mod ProfilesFile
mod Bytes
mod Connections
mod Names
mod Settings
mod Attempts
mod Table
mod Proxy
