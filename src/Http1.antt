-- ===== src/Http1.antt =====
-- src/http1/parse.rs: the scanner of HTTP/1.1 responses. A byte is a number.
pub mod Bytes
pub mod Numbers
pub mod Head
pub mod Scan
pub mod Feed
pub mod Terminator
pub mod Extend
pub mod Progress
pub mod Turns
pub mod Split
pub mod Bodies
pub mod Pieces
pub mod Waiting
pub mod Digits
mod Runs
