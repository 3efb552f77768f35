-- ===== src/Entities.antt =====
-- The entities of the generated API: the repository of express/src/modules/_base/repository.ts and the
-- routes of express/src/modules/_base/auto-routes.ts.
pub mod Store
pub mod Repository
pub mod Search
pub mod Found
pub mod Laws
pub mod Bulk
pub mod Routes
pub mod Hidden
mod Tests
