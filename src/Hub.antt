-- ===== src/Hub.antt =====
-- The hub: hub/src.
pub mod NodeList
pub mod Address
pub mod Http
pub mod Register
pub mod Dispatch
pub mod KeyCache
pub mod Result
pub mod Push
pub mod Scheduler
pub mod Verifier
pub mod Errors
pub mod Grpc
