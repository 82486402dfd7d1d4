-- ===== src/Untrusted.antt =====
-- The program outside of the enclave: untrusted/sample.cpp starts it, and the other files of untrusted/
-- answer its calls.
pub mod Messages
pub mod Token
pub mod Start
pub mod Files
pub mod Answers
mod Examples
