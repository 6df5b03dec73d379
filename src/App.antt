-- ===== src/App.antt =====
-- The App: methods, route trees, groups, registration, Build and dispatch.
pub mod Method
pub mod Trees
pub mod Model
pub mod Register
pub mod Build
pub mod Setup
mod Tests
