-- ===== src/Tests.antt =====
-- Runs of the model on small inputs, and the theorems applied to them.
pub mod Service
pub mod Histories
pub mod Http
pub mod Served
pub mod Outage
pub mod Middlewares
pub mod Lifespans
pub mod Configurations
pub mod Processes
pub mod Logs
pub mod Streams
pub mod Migrations
pub mod Requests
pub mod AccessLines
