-- ===== src/Examples.antt =====
-- Concrete inputs for the theorems.
pub mod World
pub mod Publishing
mod Tokens
mod Editing
mod Mutations
mod Web
mod Journals
mod Projects
mod Listings
pub mod Reviews
mod Agents
mod Commands
mod Catalogs
mod Routers
mod Stagings
