-- ===== src/Http.antt =====
-- http.c: codes, methods, routes and responses of the web server.
pub mod Codes
pub mod Format
pub mod Routes
pub mod Server
pub mod Query
pub mod Sent
pub mod Broadcast
use atx_sys.Common.{ℕ, Bytes}

-- The status line's code and the body of what was printed on a connection.
pub record Response : Type 0 where
  pub code : ℕ
  pub body : Bytes
