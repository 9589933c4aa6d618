-- ===== src/Dbrouter.antt =====
-- Package dbrouter.
pub mod Express
pub mod Parser
pub mod Changes
pub mod Manager
pub mod Routing
pub mod Closing
pub mod Groups
pub mod Loading
pub mod Serving
pub mod Router
pub mod Rejecting
mod Tests
