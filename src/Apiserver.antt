-- ===== src/Apiserver.antt =====
-- internal/apiserver: the admin API. The Kubernetes client and the HTTP, JSON, JWT, bcrypt and TOTP
-- libraries are parameters; a request is its decoded parts.
pub mod Interface
pub mod TwoFa
pub mod SecretStore
pub mod Enrolment
pub mod SettingUp
pub mod QrCode
pub mod Login
pub mod Factors
pub mod Sites
pub mod Forms
pub mod Edits
pub mod Status
pub mod Documents
pub mod Admin
pub mod Routes
