-- ===== src/Kafka.antt =====
-- The module that writes to Kafka: reader_modules/mod_kafka.
pub mod Producer
pub mod Fields
pub mod Update
pub mod Close
pub mod Pipeline
pub mod Conf
pub mod Init
