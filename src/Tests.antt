-- ===== src/Tests.antt =====
-- The theorems applied to concrete tables, objects, graphs and threads, and runs of the operations.
mod Data
mod Tables
mod Objects
mod Locks
mod Containers
mod Graphs
mod Sequences
mod Orders
mod Integers
mod Dictionaries
mod Owners
mod Runs
