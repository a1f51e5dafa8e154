-- ===== src/Lib.antt =====
-- A verification library for log-reader, which follows the binary access log of BFE, decodes its
-- records and hands them in batches to modules that write them to Kafka or MySQL.
--
-- The parts and their files:
-- Prelude: tests, lists, maps, integers, decimal texts and results that the other parts share.
-- Fields: the field registry, reader_modules/mod_fields/field_registry.go. `register_all_fields`
-- is `registerAllFields`, with a table of entries for each group of fields (Fields/Table), and
-- `extract` is `Extract`. The getters of the generated package bfe_access_pb are the fields of the
-- records in Fields/Log; the host id is a parameter.
-- Reader: the reader of the log file, bfe_log_reader/log_reader.go, pb_log_reader.go and
-- pb_buff_parse.go. `log_read` is `logRead`, over the calls that open, read and close the file in
-- Reader/LogFile; what the operating system answers to its calls is an argument, and so are
-- `BuffParse` and `Unmarshal`, which are not in the repository. Reader/Batch is the splitting of
-- records in `Start` and their dispatch to the modules. Reader/Start is the loop of `Start`,
-- Reader/Start/Opening has `NewPbLogReader`, and Reader/Goroutines the calls of `Update` that it
-- starts, in any order; Kafka/Pipeline and Mysql/Pipeline run them on the two modules. The sleeps
-- of `Start` are not modelled.
-- Mysql: reader_modules/mod_log_mysql. Mysql/Mapper is `ToRow` of field_mapper.go over the columns
-- in Mysql/Columns, with `json.Marshal` as a parameter. Mysql/Writer is record_writer.go: the
-- queue, and the goroutine as a step for each case of its `select`, in any order; the outcome of
-- each transaction is a parameter. Mysql/Init and Mysql/Close, with the start of the goroutine in
-- the first, are `Init` and `Close` of mod_log_mysql.go, and Mysql/Update its `Update`: between
-- two records the goroutine takes any turns, and the same holds for Kafka/Update.
-- Kafka: reader_modules/mod_kafka. Kafka/Fields is kafka_data_config.go and json_converter.go,
-- Kafka/Producer is kafka_producer.go, with the goroutine as a step for each case of its `select`
-- and the outcomes of the two writers as parameters, Kafka/Update is `Update` of mod_kafka.go, and
-- Kafka/Init its `Init` with `NewKafkaProducer`, Kafka/Close its `Close`. `json.Marshal` is a
-- parameter.
-- Conf: Conf/Load is `ReaderConfigLoad`, Conf/Basic is the check of the basic section,
-- reader_conf/conf_basic.go, and Conf/AccessLog that of the access log section, conf_access_pb.go,
-- with `ParseModule` in Conf/Modules. Mysql/Conf and Kafka/Conf are the checks of
-- conf_mod_log_mysql.go and conf_mod_kafka.go.
-- Generator: the log generator of the integration tests,
-- tests/integration/common/log_generator.go; its calls of b2log and proto are parameters.
-- Modules: the registry of modules, reader_module/reader_module.go.
-- Host: the host id, reader_util/host_id.go.
-- App: the start and the end of the process, main/log_reader.go, bfe_log_reader/bfe_log_reader.go,
-- bfe_log_reader/register_modulers.go and reader_modules/all_modules.go. Whether the `Init` of a
-- module succeeds and the order of the loops over Go's maps are arguments.
-- Tail: the command `tail` of the tool, cmd/bfe-pblog-tool/tail/pb_tail.go. Tail/LastN is
-- `tailLastN` with its two loops, Tail/Follow is `followFrom`, one call of `poll_once` for each
-- turn of its loop, and Tail/Command is `PblogTail`. Tail/Action is the command line,
-- tail/tail.go. The file's bytes, the failures of the operating system and the answers of the
-- callback are arguments.
-- Cat: the command `cat` of the tool, cmd/bfe-pblog-tool/cat/pb_cat.go: the goroutine that reads
-- and the one that parses are two kinds of events, in any order. Cat/Action is the command line,
-- cat/cat.go.
-- Tests: every theorem that has conditions or arguments, at concrete values.
--
-- Loops are structural recursion, or recursion on a bound that the loop states itself: the loops
-- of Tail run on the bytes that are left to read or to parse, the splitting into batches runs on
-- the number of records, and retries on `MaxRetries + 1`. Counters are the sums of their
-- increments, on numbers without a bound.
--
-- Not modelled: the list of commands of the tool bfe-pblog-tool, logging, the web server, what the
-- signal table does, the other files of the integration tests, and the libraries. The sources have
-- calls of libraries for these, and the other test files start processes and servers. Locks are
-- left out where one goroutine uses the state.
pub mod Prelude
pub mod Fields
pub mod Reader
pub mod Mysql
pub mod Kafka
pub mod Conf
pub mod Modules
pub mod App
pub mod Host
pub mod Tail
pub mod Cat
pub mod Generator
pub mod Tests
