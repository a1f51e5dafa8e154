-- ===== src/Mysql/Init/Outcomes.antt =====
-- What each outcome of `Init` of mod_log_mysql says, up to the writer that it starts.
use log_reader.Prelude.{
  ℕ, ◌<◌, Bool, true, false, List, Option, none, some, Result, ok, err, ◌≡◌, refl, sym, subst,
  arith, ℤ, pos, negsuc, IsPositive, if◌then◌else◌, if_elim, if_elim_eq, ◌⊎◌, inl, inr, ltb, length,
  [], ◌∷◌, ◌++◌,
}
use log_reader.Mysql.Conf.{
  ConfModLogMysql, ConfError, conf_mod_log_mysql_check, Verdict, conf_mod_log_mysql_check-Verdict,
}
use log_reader.Mysql.Writer.{WriterConf, TxnOutcome}
use log_reader.Mysql.Writer.Loop.{
  Writer, Event, enqueue, receive, tick, stop, new_writer, lost_writer, crashed, is_running, react,
  enqueue_row, step, run,
}
use log_reader.Mysql.Writer.Bounds.{Inv, run-new_writer-Inv}
use log_reader.Mysql.Init.{
  InitAnswers, InitError, conf_unreadable, open_error, ping_error, channel_panics, handlers_error,
  conf_invalid, Db, ModuleLogMysql, dsn_of, size, write_loop_starts, start_writer,
  new_record_writer, checked_conf, load_config, init_db, mysql_init,
}

-- A pool is left open only if the writer that uses it was started.
abbrev IsClosed : Option Db → Type 0
IsClosed none = Unit
IsClosed (some db) = db.is_closed ≡ true

-- A goroutine that has panicked before its loop: one failure is counted, and nothing is handed over.
abbrev pub IsLost : Writer → Type 0
IsLost w = (w.status ≡ crashed) × (w.handed ≡ []) × (w.sink.send_mysql_failed ≡ 1)

-- The writer that is started: its bounds hold whatever then happens, or its goroutine is lost for
-- good.
abbrev pub Runs : InitAnswers → ConfModLogMysql → WriterConf → Writer → Type 0
Runs a d w v =
    ((write_loop_starts a d ≡ true)
      × (v ≡ new_writer)
      × ((env : ℕ → TxnOutcome) (es : List Event) → Inv w (run env w v es)))
    ⊎ ((write_loop_starts a d ≡ false)
        × ((env : ℕ → TxnOutcome) (es : List Event) → IsLost (run env w v es)))

-- The writer is started with settings that have passed their check.
abbrev Serves : InitAnswers → ConfModLogMysql → ModuleLogMysql → Type 0
Serves a c m =
    (d : ConfModLogMysql) × (w : WriterConf) × (v : Writer) × (conf_mod_log_mysql_check c ≡ ok d)
    × (m.writer ≡ some (w, v))
    × Runs a d w v

-- What each outcome of `Init` says.
abbrev pub InitVerdict :
    InitAnswers → ModuleLogMysql → Result InitError Unit → ModuleLogMysql → Type 0
InitVerdict a m (err conf_unreadable) m' = (a.read ≡ none) × (m' ≡ m)
InitVerdict a m (err (conf_invalid e)) m' =
    (c : ConfModLogMysql) × (a.read ≡ some c) × Verdict c (err e) × (m' ≡ m)
InitVerdict a m (err open_error) m' = (a.open_ok ≡ false) × (m' ≡ m)
InitVerdict a m (err ping_error) m' = (a.ping_ok ≡ false) × (m'.writer ≡ m.writer) × IsClosed m'.db
InitVerdict a m (err channel_panics) m' =
    (c d : ConfModLogMysql) × (conf_mod_log_mysql_check c ≡ ok d)
    × (a.read ≡ some c)
    × (a.makes_channel d.queue_size ≡ false)
    × (m'.writer ≡ m.writer)
InitVerdict a m (err handlers_error) m' =
    (c : ConfModLogMysql) × (a.read ≡ some c) × (a.handlers_ok ≡ false) × Serves a c m'
InitVerdict a m (ok u) m' =
    (c : ConfModLogMysql) × (a.read ≡ some c) × (a.handlers_ok ≡ true) × Serves a c m'

size_positive : (n : ℤ) → IsPositive n → 0 < size n
size_positive (pos n) p = ground arith
size_positive (negsuc n) p = absurd (ground arith)

new_record_writer-Inv :
    (c d : ConfModLogMysql)
    → conf_mod_log_mysql_check c ≡ ok d
    → (env : ℕ → TxnOutcome) (es : List Event)
    → Inv (new_record_writer d) (run env (new_record_writer d) new_writer es)
unfolding new_record_writer
new_record_writer-Inv c d e env es =
    let v : Verdict c (ok d) = subst (Verdict c) e (conf_mod_log_mysql_check-Verdict c) in
    run-new_writer-Inv env (new_record_writer d) (size_positive d.batch_size v.1) es

reacts-IsLost :
    (env : ℕ → TxnOutcome) (w : WriterConf) (v : Writer) (e : Event)
    → IsLost v
    → IsLost (if is_running v.status then react env w e v else v)
reacts-IsLost env w v e l =
    subst (λ s. IsLost (if is_running s then react env w e v else v)) (sym l.0) l

step-IsLost :
    (env : ℕ → TxnOutcome) (w : WriterConf) (v : Writer) (e : Event)
    → IsLost v
    → IsLost (step env w v e)
unfolding step enqueue_row
step-IsLost env w v (enqueue row) l =
    if_elim (λ (r : Bool × Writer). IsLost r.1) (ltb (length v.queue) w.queue_size)
      (true, record v { queue = v.queue ++ (row ∷ []) }) (false, v) l l
step-IsLost env w v receive l = reacts-IsLost env w v receive l
step-IsLost env w v tick l = reacts-IsLost env w v tick l
step-IsLost env w v stop l = reacts-IsLost env w v stop l

pub run-IsLost :
    (env : ℕ → TxnOutcome) (w : WriterConf) (v : Writer) (es : List Event)
    → IsLost v
    → IsLost (run env w v es)
unfolding run
run-IsLost env w v [] l = l
run-IsLost env w v (e ∷ es) l = run-IsLost env w (step env w v e) es (step-IsLost env w v e l)

start_writer-Runs :
    (a : InitAnswers) (c d : ConfModLogMysql)
    → conf_mod_log_mysql_check c ≡ ok d
    → Runs a d (new_record_writer d) (start_writer a d)
unfolding start_writer
start_writer-Runs a c d e =
    if_elim_eq (Runs a d (new_record_writer d)) (write_loop_starts a d) new_writer lost_writer
      (λ s. inl (s, refl, new_record_writer-Inv c d e))
      (λ s.
        inr (s, λ env es. run-IsLost env (new_record_writer d) lost_writer es (refl, refl, refl)))

init_db-InitVerdict :
    (a : InitAnswers) (m : ModuleLogMysql) (c d : ConfModLogMysql)
    → a.read ≡ some c
    → conf_mod_log_mysql_check c ≡ ok d
    → InitVerdict a m (init_db a (ok d) m).0 (init_db a (ok d) m).1
unfolding init_db
init_db-InitVerdict a m c d r e =
    let P : Result InitError Unit × ModuleLogMysql → Type 0 = λ x. InitVerdict a m x.0 x.1 in
    if_elim_eq P a.open_ok _ (err open_error, m)
      (λ o.
        if_elim_eq P a.ping_ok _ _
          (λ p.
            if_elim_eq P (a.makes_channel d.queue_size) _ _ (λ k. answered a.handlers_ok refl)
              (λ k. (c, d, e, r, k, refl)))
          (λ p. (p, refl, refl)))
      (λ o. (o, refl))
  where
    opened : ModuleLogMysql
    opened = record {
      db = some (record {
        dsn = dsn_of d;
        is_closed = false;
        max_open_conns = some d.max_open_conns;
        max_idle_conns = some d.max_idle_conns;
      });
      writer = some (new_record_writer d, start_writer a d);
    }

    serves : Serves a c opened
    serves = (d, new_record_writer d, start_writer a d, e, refl, start_writer-Runs a c d e)

    answered :
        (b : Bool)
        → a.handlers_ok ≡ b
        → InitVerdict a m (if b then ok tt else err handlers_error) opened
    answered true h = (c, r, h, serves)
    answered false h = (c, r, h, serves)

-- For any answers and any module before: an outcome of `Init` other than success says which of its
-- steps failed. Only after a failure of the last one, the registration of the monitor handlers, does
-- the module have a new writer, and a pool whose `Ping` fails is closed. When the writer is started,
-- the settings have passed their check. If its goroutine comes to its loop, which is if the interval
-- of the ticker, wrapped to 64 bits, is positive and `make` makes the batch, then whatever happens
-- next and whatever the database answers, the writer's queue, batches and counters keep their
-- bounds. Otherwise, whatever happens next, it hands no batch to the database, and the count of
-- failed batches is 1.
pub mysql_init-InitVerdict :
    (a : InitAnswers) (m : ModuleLogMysql) → InitVerdict a m (mysql_init a m).0 (mysql_init a m).1
unfolding mysql_init load_config init_db
mysql_init-InitVerdict a m = read a.read refl
  where
    checked :
        (c : ConfModLogMysql) (v : Result ConfError ConfModLogMysql)
        → conf_mod_log_mysql_check c ≡ v
        → a.read ≡ some c
        → InitVerdict a m (init_db a (checked_conf v) m).0 (init_db a (checked_conf v) m).1
    checked c (err x) v e = (c, e, subst (Verdict c) v (conf_mod_log_mysql_check-Verdict c), refl)
    checked c (ok d) v e = init_db-InitVerdict a m c d e v

    read :
        (r : Option ConfModLogMysql)
        → a.read ≡ r
        → InitVerdict a m (init_db a (load_config r) m).0 (init_db a (load_config r) m).1
    read none e = (e, refl)
    read (some c) e = checked c (conf_mod_log_mysql_check c) refl e
