-- ===== src/Node.antt =====
-- The prover node: prover/node/src.
pub mod Status
pub mod ProofManager
pub mod Pool
pub mod Rpc
pub mod Project
pub mod OAuth
pub mod X509
pub mod Circom
pub mod Service
pub mod HttpV1
pub mod GrpcV1
pub mod Verifier
pub mod ProverV2
pub mod ServiceV2
pub mod HandlersV2
pub mod Heartbeat
pub mod Startup
