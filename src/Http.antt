-- ===== src/Http.antt =====
-- app/interface/http: the FastAPI interface.
pub mod Message
pub mod Presenting
pub mod UseCases
pub mod UserRoutes
pub mod AuthRoutes
pub mod Dependencies
pub mod Routes
pub mod Keeps
pub mod Middleware
pub mod Refresh
pub mod Guards
pub mod AccessToken
pub mod AdminOnly
pub mod CachePolicy
pub mod Login
pub mod Logout
