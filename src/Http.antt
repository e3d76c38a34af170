-- ===== src/Http.antt =====
-- src/HttpRequest.h and src/HttpRequest.cpp: the parser of requests.
pub mod Chars
pub mod Libc
pub mod Request
pub mod Readers
pub mod Parser
pub mod Url
pub mod Methods
mod Samples
