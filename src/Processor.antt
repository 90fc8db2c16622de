-- ===== src/Processor.antt =====
-- The testing processor: the testing_processor directory.
pub mod Report
pub mod Request
pub mod Container
pub mod Tabasco
pub mod Execute
pub mod Testing
pub mod Process
pub mod Broker
pub mod Instances
pub mod Queue
