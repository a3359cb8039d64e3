-- ===== src/Application.antt =====
-- app/application: the use cases, with their DTOs and the presenter that they report to.
pub mod State
pub mod Dto
pub mod Presenter
pub mod Exit
pub mod Authorize
pub mod CreateUser
pub mod UpdateUser
pub mod ChangePassword
pub mod DeleteUser
pub mod GetUser
pub mod Keeps
pub mod Registration
pub mod SignIn
pub mod Credentials
pub mod Deactivation
pub mod AuthenticateUser
