-- ===== src/Auth.antt =====
-- The authentication of clients by tokens: src/JwtValidator.cpp and src/ServerConfig.cpp.
pub mod Regex
pub mod Policy
pub mod Config
pub mod Glob
pub mod Rules
pub mod Validator
pub mod Loading
pub mod Patterns
pub mod Satisfying
pub mod Admission
pub mod Escapes
pub mod Accepting
