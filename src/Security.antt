-- ===== src/Security.antt =====
-- app/infrastructure/security: the services over bcrypt, PyJWT and hashlib, which are given.
pub mod Passwords
pub mod Hashing
pub mod Tokens
pub mod Jwt
