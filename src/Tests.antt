-- ===== src/Tests.antt =====
-- Runs of the modelled code on concrete inputs, and the theorems applied at such inputs.
mod Queues
mod Strings
mod Requests
mod Exchanges
mod Trees
mod Pools
mod Helpers
mod Channels
mod Streams
