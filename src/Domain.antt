-- ===== src/Domain.antt =====
-- app/domain: exceptions, value objects, the user entity.
pub mod Errors
pub mod Uuid
pub mod Values
pub mod User
