-- ===== src/Middlewares.antt =====
-- src/app/middlewares: what wraps every request.
pub mod CorrelationId
pub mod SecureHeaders
pub mod UnhandledException
pub mod RequestIds
pub mod DocsPaths
pub mod ErrorResponses
