-- ===== src/Auth.antt =====
-- The auth feature of the Express backend: the files that
-- features/auth/express/common and features/auth/express/prisma put under src/modules/auth.
pub mod Rows
pub mod Store
pub mod Services
pub mod Responses
pub mod Password
pub mod Mfa
pub mod Session
pub mod Login
pub mod Challenge
pub mod Enrollment
pub mod Refresh
pub mod Account
pub mod Recovery
pub mod Jobs
pub mod Tables
pub mod Keeps
pub mod Dead
pub mod Memory
pub mod Heads
pub mod Lockout
pub mod Credentials
mod Tests
