-- ===== src/Conf.antt =====
-- The configuration of the reader: package reader_conf.
pub mod Basic
pub mod Modules
pub mod AccessLog
pub mod Load
