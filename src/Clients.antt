-- ===== src/Clients.antt =====
-- src/app/clients: the wrappers of Redis and PostgreSQL.
pub mod Redis
pub mod Postgres
