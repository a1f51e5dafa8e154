-- ===== src/Mysql.antt =====
-- reader_modules/mod_log_mysql: the output module that writes records to MySQL.
pub mod Columns
pub mod Mapper
pub mod Writer
pub mod Update
pub mod Conf
pub mod Init
pub mod Close
pub mod Pipeline
