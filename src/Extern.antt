-- ===== src/Extern.antt =====
-- What the program takes from third-party packages: each interface is a record, a parameter of the
-- modules that use it, with the documented behaviour that the proofs rely on as its laws.
pub mod Json
pub mod Mongo
pub mod Crow
pub mod System
pub mod Unix
