-- ===== src/Samples.antt =====
-- Concrete inputs: each theorem about the program applied where its hypotheses hold.
mod Tracker
mod Tables
mod Stores
mod Clocks
mod Servers
mod Chunked
mod Queries
mod Statements
mod Executions
mod Collection
mod Starts
