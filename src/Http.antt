-- ===== src/Http.antt =====
-- belt.pp/http.hpp: the class `request`, and `protocol`, which reads a request from a session's bytes.
pub mod Split
pub mod Percent
pub mod Find
pub mod Rounds
pub mod RoundTrip
pub mod Malformed
pub mod Parts
pub mod Join
pub mod Property
pub mod Words
pub mod Url
pub mod Request
pub mod Scan
pub mod Number
pub mod Protocol
pub mod Reply
pub mod Session
pub mod Lines
pub mod Headers
pub mod RequestLine
pub mod Whole
pub mod Fuel
pub mod Safety
