-- ===== src/Ipv4Filter.antt =====
-- services/ipv4_filter: the command line client, part by part.
pub mod EventBuilder
pub mod Interfaces
pub mod GrpcService
pub mod UseCases
pub mod Cli
pub mod Config
pub mod Retry
pub mod Main
mod Tests
