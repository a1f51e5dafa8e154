-- ===== src/Tests.antt =====
-- Every theorem with conditions at concrete values.
mod Samples
mod Fields
mod Mysql
mod Reader
mod Pipeline
mod Kafka
mod Conf
mod Modules
mod Tail
mod App
mod Cat
mod Host
mod Generator
