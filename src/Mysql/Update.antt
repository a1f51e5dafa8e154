-- ===== src/Mysql/Update.antt =====
-- `ModuleLogMysql.Update` of reader_modules/mod_log_mysql/mod_log_mysql.go, while the goroutine of the
-- writer runs beside it.
use log_reader.Prelude.{
  ℕ, suc, ◌+◌, ◌≤◌, String, Bool, true, false, List, [], ◌∷◌, ◌++◌, append-nil, Option, Result, ok,
  err, ◌≡◌, refl, arith, if◌then◌else◌, if_elim, length, length-append, map,
}
use log_reader.Fields.Log.{BfeLog}
use log_reader.Fields.Value.{Value}
use log_reader.Fields.Registry.{FieldRegistry}
use log_reader.Mysql.Mapper.{to_row}
use log_reader.Mysql.Writer.{Row, WriterConf, TxnOutcome}
use log_reader.Mysql.Writer.Loop.{
  Writer, new_writer, Event, receive, tick, stop, enqueue_row, step, run,
}
use log_reader.Mysql.Writer.Delivery.{held, accepted, held-run, held-enqueue_row}

-- The writer and the counters that `Update` increments.
pub record ModuleLogMysql : Type 0 where
  pub writer : Writer
  pub received_logs : ℕ
  pub received_req : ℕ
  pub convert_failed : ℕ
  pub sent_to_mysql : ℕ
  pub sent_mysql_chn_full : ℕ

abbrev pub new_module_log_mysql : ModuleLogMysql
new_module_log_mysql = record {
  writer = new_writer;
  received_logs = 0;
  received_req = 0;
  convert_failed = 0;
  sent_to_mysql = 0;
  sent_mysql_chn_full = 0;
}

-- What may happen to the writer between two calls of `Enqueue`.
pub data Turn : Type 0 where
  receives ticks closes : Turn

abbrev pub event_of : Turn → Event
event_of receives = receive
event_of ticks = tick
event_of closes = stop

module _ (marshal : Value → Option String) (reg : FieldRegistry) (env : ℕ → TxnOutcome)
    (conf : WriterConf) where
  -- if !m.writer.Enqueue(row) { Inc("SENT_MYSQL_CHN_FULL", 1); continue }; Inc("SENT_TO_MYSQL", 1)
  unfoldable pub count_enqueue : Bool × Writer → ModuleLogMysql → ModuleLogMysql
  count_enqueue (true, w) m = record m { writer = w; sent_to_mysql = suc m.sent_to_mysql }
  count_enqueue (false, w) m = record m {
    writer = w;
    sent_mysql_chn_full = suc m.sent_mysql_chn_full;
  }

  unfoldable pub enqueue_converted : Result String Row → ModuleLogMysql → ModuleLogMysql
  unfolding count_enqueue enqueue_row
  enqueue_converted (err e) m = record m { convert_failed = suc m.convert_failed }
  enqueue_converted (ok row) m = count_enqueue (enqueue_row env conf row m.writer) m

  unfoldable pub update_log : BfeLog → ModuleLogMysql → ModuleLogMysql
  unfolding enqueue_converted to_row
  update_log log m =
      if log.is_request
      then enqueue_converted (to_row marshal reg log)
          (record m { received_logs = suc m.received_logs; received_req = suc m.received_req })
      else record m { received_logs = suc m.received_logs }

  -- `Update`: before each record, what happens to the writer meanwhile.
  unfoldable pub update : List (List Turn × BfeLog) → ModuleLogMysql → ModuleLogMysql
  unfolding update_log run
  update [] m = m
  update ((turns, log) ∷ logs) m =
      update logs
        (update_log log (record m { writer = run env conf m.writer (map event_of turns) }))

  -- What the counters mean for the rows in the writer.
  abbrev pub Accounted : ModuleLogMysql → Type 0
  Accounted m =
      (m.received_req ≡ m.convert_failed + (m.sent_to_mysql + m.sent_mysql_chn_full))
      × (m.received_req ≤ m.received_logs)
      × (m.sent_to_mysql ≡ length (held m.writer))

  pub turns-accepted : (ts : List Turn) (w : Writer) → accepted env conf w (map event_of ts) ≡ []
  turns-accepted [] w = refl
  turns-accepted (receives ∷ ts) w = turns-accepted ts (step env conf w receive)
  turns-accepted (ticks ∷ ts) w = turns-accepted ts (step env conf w tick)
  turns-accepted (closes ∷ ts) w = turns-accepted ts (step env conf w stop)

  pub turns-Accounted :
      (ts : List Turn) (m : ModuleLogMysql)
      → Accounted m
      → Accounted (record m { writer = run env conf m.writer (map event_of ts) })
  turns-Accounted ts m (r, l, s) = (
    r,
    l,
    rw (held-run env conf m.writer (map event_of ts), turns-accepted ts m.writer, append-nil) s,
  )

  count_enqueue-Accounted :
      (row : Row) (r : Bool × Writer) (m : ModuleLogMysql)
      → held r.1 ≡ held m.writer ++ (if r.0 then row ∷ [] else [])
      → Accounted m
      → Accounted (
          count_enqueue r
            (record m { received_logs = suc m.received_logs; received_req = suc m.received_req }))
  unfolding count_enqueue
  count_enqueue-Accounted row (true, w) m e (r, l, s) = (
    omega (arith, r),
    omega (arith, l),
    rw e (omega (arith, s, length-append (held m.writer) (row ∷ []))),
  )
  count_enqueue-Accounted row (false, w) m e (r, l, s) =
      (omega (arith, r), omega (arith, l), rw (e, append-nil) s)

  enqueue_converted-Accounted :
      (o : Result String Row) (m : ModuleLogMysql)
      → Accounted m
      → Accounted (
          enqueue_converted o
            (record m { received_logs = suc m.received_logs; received_req = suc m.received_req }))
  unfolding enqueue_converted
  enqueue_converted-Accounted (err e) m (r, l, s) = (omega (arith, r), omega (arith, l), s)
  enqueue_converted-Accounted (ok row) m a =
      count_enqueue-Accounted row (enqueue_row env conf row m.writer) m
        (held-enqueue_row env conf row m.writer) a

  pub update_log-Accounted :
      (log : BfeLog) (m : ModuleLogMysql) → Accounted m → Accounted (update_log log m)
  unfolding update_log
  update_log-Accounted log m a =
      if_elim Accounted log.is_request _ _
        (enqueue_converted-Accounted (to_row marshal reg log) m a) (a.0, omega (arith, a.1), a.2)

  update-Accounted :
      (logs : List (List Turn × BfeLog)) (m : ModuleLogMysql)
      → Accounted m
      → Accounted (update logs m)
  unfolding update
  update-Accounted [] m a = a
  update-Accounted ((ts, log) ∷ logs) m a =
      update-Accounted logs _ (update_log-Accounted log _ (turns-Accounted ts m a))

  -- However the goroutine of the writer takes its turns between the records of any calls of `Update`,
  -- and whatever the database answers: RECEIVED_REQ is the sum of CONVERT_FAILED, SENT_TO_MYSQL and
  -- SENT_MYSQL_CHN_FULL, and at most RECEIVED_LOGS; SENT_TO_MYSQL is the number of rows that are in
  -- the queue, in the batch, or were handed to the database.
  pub update-new_module_log_mysql-Accounted :
      (logs : List (List Turn × BfeLog)) → Accounted (update logs new_module_log_mysql)
  update-new_module_log_mysql-Accounted logs =
      update-Accounted logs new_module_log_mysql (omega arith, omega arith, omega arith)
