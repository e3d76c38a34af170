-- ===== src/Exec.antt =====
-- src/executors and the parts of src/PollLoop.cpp that they call: a connection, and the handlers that
-- work on it.
pub mod Data
pub mod Sys
pub mod PollFds
pub mod Response
pub mod Request
pub mod File
pub mod ReadWrite
pub mod Splice
pub mod Ssl
pub mod Tests
pub mod EventTests
pub mod FileTests
