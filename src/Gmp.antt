-- ===== src/Gmp.antt =====
-- relayer_base/src/gmp_api/gmp_types.rs and relayer_base/src/error.rs: the tasks that the GMP API
-- hands out, the events that the relayer posts, and the errors.
pub mod Task
pub mod Event
pub mod Errors
pub mod Parsing
pub mod Api
pub mod Models
pub mod Audit
