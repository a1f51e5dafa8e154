-- ===== src/Tail.antt =====
-- The command `tail` of bfe-pblog-tool: cmd/bfe-pblog-tool/tail/pb_tail.go. The file's bytes, the
-- failures of the operating system and the callback's answers are arguments. `PbBuffParse` never
-- returns a nil record, so the tests of `r == nil` are left out.
pub mod Options
pub mod LastN
pub mod Follow
pub mod Command
pub mod Total
pub mod Action
