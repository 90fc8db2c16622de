-- ===== src/Tabasco.antt =====
-- task_batcher_storage_coordinator: the service that stores builds and the tests of tasks.
pub mod Batches
pub mod Data
pub mod Storage
pub mod Server
pub mod Grpc
pub mod EndToEnd
pub mod Http
pub mod Main
pub mod Served
