-- ===== src/Drf.antt =====
-- app/interface/drf: the second HTTP interface, on Django REST framework and the Django stack.
pub mod Framework
pub mod Serializers
pub mod Presenting
pub mod Dependencies
pub mod UserViews
pub mod AuthViews
pub mod Middleware
pub mod Urls
pub mod Keeps
pub mod Mirrors
pub mod Answers
pub mod Logout
