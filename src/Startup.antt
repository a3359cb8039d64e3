-- ===== src/Startup.antt =====
-- What runs before the application serves: entrypoint.py and app/scripts.
pub mod Entrypoint
pub mod Bootstrap
