-- ===== src/ClientService.antt =====
-- services/client_service_rs: the client service, as far as its declarative configuration goes.
pub mod Models
pub mod Config
