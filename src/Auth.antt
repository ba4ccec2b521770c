-- ===== src/Auth.antt =====
-- Authentication: tokens, the current user, login, password reset and two-factor authentication
-- (Backend/app/security.py, middleware/auth.py, api/auth.py, api/users.py, services/totp.py).
pub mod Env
pub mod Tokens
pub mod CurrentUser
pub mod Guards
pub mod Login
pub mod Totp
pub mod SecondFactor
pub mod Reset
