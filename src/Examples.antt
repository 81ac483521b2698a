-- ===== src/Examples.antt =====
-- Runs of the modelled code, and the theorems at concrete inputs.
mod ListHeap
mod Queues
mod Statistics
mod Sampling
mod Names
mod Times
mod Rules
mod Filters
mod Reservoirs
mod Collections
mod Streaming
mod Spans
mod Headers
mod Harvests
