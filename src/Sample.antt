-- ===== src/Sample.antt =====
-- Instances of the interfaces, to run the program on.
pub mod Trees
pub mod Database
pub mod Requests
pub mod Machine
