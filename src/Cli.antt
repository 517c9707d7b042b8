-- ===== src/Cli.antt =====
-- Package job_squire_cli: the rules of instance names, the registry of instances, the host ports, and the query
-- configuration.
pub mod Slug
pub mod Registry
pub mod Ports
pub mod QueryConfig
pub mod Dotenv
