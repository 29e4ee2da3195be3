-- ===== src/Peer.antt =====
-- feather-mesh/mesh_core/src/services/peer_access.rs
pub mod Error
pub mod Token
pub mod Types
pub mod Env
pub mod Project
pub mod Listing
pub mod Opening
pub mod Creation
pub mod Validation
pub mod Manifest
pub mod Mutation
pub mod Resolve
pub mod Staging
