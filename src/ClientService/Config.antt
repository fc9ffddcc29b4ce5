-- ===== src/ClientService/Config.antt =====
-- services/client_service_rs/src/config: the declarative configuration of the whole system.
pub mod Document
pub mod Keyed
pub mod Canonical
pub mod Plan
pub mod Snapshot
pub mod Resolver
pub mod Skills
pub mod Validate
pub mod SampleJson
mod Tests
