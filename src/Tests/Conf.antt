-- ===== src/Tests/Conf.antt =====
-- The theorems on the three checks of settings at concrete settings.
use log_reader.Prelude.{◌≡◌, refl, true, false, pos, negsuc}
use log_reader.Prelude.{[], ◌∷◌}
use log_reader.Conf.Modules.{parse_module}
use log_reader.Conf.AccessLog.{
  PbAccessLogConf, pb_access_log_conf_check, AccessLogVerdict,
  pb_access_log_conf_check-AccessLogVerdict,
}
use log_reader.Conf.Basic.{ConfBasic, basic_conf_check, BasicVerdict, basic_conf_check-BasicVerdict}
use log_reader.Mysql.Conf.{
  Verdict as MysqlVerdict, ConfModLogMysql, conf_mod_log_mysql_check,
  conf_mod_log_mysql_check-Verdict,
}
use log_reader.Kafka.Conf.{
  Verdict as KafkaVerdict, ConfKafka, conf_mod_kafka_check, conf_mod_kafka_check-Verdict,
}

abbrev basic : ConfBasic
basic = record {
  max_cpus = pos 4;
  http_port = pos 8080;
  http_addr = "";
  monitor_interval = pos 30;
  program_name = "log-reader";
}

basic_conf_check-BasicVerdict_example : BasicVerdict basic (basic_conf_check basic)
basic_conf_check-BasicVerdict_example = basic_conf_check-BasicVerdict basic

abbrev mysql : ConfModLogMysql
mysql = record {
  addr = "127.0.0.1:3306";
  user = "u";
  password = "";
  db_name = "d";
  table = "t";
  queue_size = pos 0;
  batch_size = pos 5;
  flush_interval_ms = negsuc 0;
  max_retries = pos 0;
  max_open_conns = pos 0;
  max_idle_conns = pos 0;
}

conf_mod_log_mysql_check-Verdict_test : MysqlVerdict mysql (conf_mod_log_mysql_check mysql)
conf_mod_log_mysql_check-Verdict_test = conf_mod_log_mysql_check-Verdict mysql

abbrev kafka : ConfKafka
kafka = record {
  brokers = "b:9092";
  topic = "t";
  dead_letter_topic = "";
  compression = "brotli";
  batch_size = pos 0;
  linger_ms = pos 5;
  max_retries = negsuc 0;
}

conf_mod_kafka_check-Verdict_test : KafkaVerdict kafka (conf_mod_kafka_check kafka)
conf_mod_kafka_check-Verdict_test = conf_mod_kafka_check-Verdict kafka

abbrev access_log : PbAccessLogConf
access_log = record {
  log_file = "/var/log/pb_access3.log";
  modules = "mod_kafka : FALSE" ∷ " mod_log_mysql" ∷ [];
  max_size_per_batch = pos 0;
  final_modules = [];
}

pb_access_log_conf_check-AccessLogVerdict_example :
    AccessLogVerdict access_log (pb_access_log_conf_check access_log)
pb_access_log_conf_check-AccessLogVerdict_example =
    pb_access_log_conf_check-AccessLogVerdict access_log

parse_module_test :
    (parse_module "mod_kafka : FALSE" ≡ ("mod_kafka", false))
    × (parse_module " mod_log_mysql:" ≡ ("mod_log_mysql", true))
    × (parse_module "mod_kafka:True " ≡ ("mod_kafka", true))
unfolding parse_module
parse_module_test = (refl, refl, refl)

-- A list with commas is one module, which is disabled or has no known name.
parse_module-comma_test :
    (parse_module "mod_kafka:false, mod_log_mysql:true" ≡ ("mod_kafka", false))
    × (parse_module "mod_kafka,mod_log_mysql" ≡ ("mod_kafka,mod_log_mysql", true))
unfolding parse_module
parse_module-comma_test = (refl, refl)
