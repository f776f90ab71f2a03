-- ===== src/Http.antt =====
-- Complete HTTP requests: the routes that the application mounts, behind its middlewares.
pub mod Fastapi
pub mod Table
pub mod Routing
pub mod Endpoints
pub mod Silence
pub mod Application
pub mod Answers
pub mod Flags
pub mod Reads
pub mod Writes
pub mod Probed
pub mod Refused
pub mod Exclusive
pub mod Raised
pub mod Failed
pub mod Outage
