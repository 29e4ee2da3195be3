-- ===== src/Stac.antt =====
-- The STAC view of the mesh: file URIs, search, and the HTTP routes.
pub mod Uri
pub mod Search
pub mod Http
