-- ===== src/Router.antt =====
-- internal/router.
pub mod Params
pub mod Pattern
pub mod Tree
pub mod Table
pub mod Insert
pub mod RouteTree
pub mod Tests
