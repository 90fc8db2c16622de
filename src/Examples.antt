-- ===== src/Examples.antt =====
-- The functions of the program on small inputs, and the theorems applied to them.
mod Batches
mod Json
mod Upload
mod Builds
mod Faults
mod Testing
mod Judging
mod Broker
mod Executor
mod LruCache
mod Startup
mod Served
