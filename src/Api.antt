-- ===== src/Api.antt =====
-- The REST interface: the executor of src/api/handlers and the authentication of src/api/auth.rs.
pub mod Executor
pub mod Auth
mod Tests
