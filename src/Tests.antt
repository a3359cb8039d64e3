-- ===== src/Tests.antt =====
-- Examples: each applies a theorem to concrete data.
mod Data
mod Domain
mod Database
mod Sessions
mod Accounts
mod Interface
mod Security
mod Service
mod Django
mod Drf
mod Startup
mod Config
