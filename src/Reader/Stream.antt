-- ===== src/Reader/Stream.antt =====
-- The loop of `Start` (bfe_log_reader/pb_log_reader.go) over a file that grows.
use log_reader.Prelude.{
  ℕ, Bool, true, false, List, [], ◌∷◌, ◌++◌, append_assoc, append-nil, Option, none, some, Result,
  ok, err, ◌≡◌, refl, ap, ◌∙◌, sym, subst, map, concat,
}
use log_reader.Fields.Log.{BfeLog}
use log_reader.Reader.Framing.{Framing, decode-chunked, rest-chunked}
use log_reader.Reader.Parse.{Codec, decode, pb_buff_parse}
use log_reader.Reader.{
  Fd, LogFileReader, bytes, eof, Io, f_read, file_read, check_read, data_buffer_parse, read_done,
  read_open, read_from, log_read, ReadError,
}

-- The bytes of one read of an open file.
abbrev pub chunk : ℕ × List ℕ → List ℕ
chunk (b, d) = b ∷ d

-- The answers of a `logRead` that reads bytes: it asks for nothing else.
abbrev pub data_io : List ℕ → Io
data_io d = record {
  missing = false;
  path_info = none;
  read = bytes d;
  read_all = eof;
  close_ok = true;
  opening = record { open_ok = true; seek_ok = true; stat = none; close_ok = true };
}

-- What `Start` gives to the modules for one answer of `logRead`.
abbrev pub delivered : Result ReadError (List BfeLog) → List BfeLog
delivered (ok records) = records
delivered (err e) = []

module _ (codec : Codec) (from_begin : Bool) where
  -- The loop of `Start` while the file gives bytes.
  unfoldable pub read_loop : List (ℕ × List ℕ) → LogFileReader → List BfeLog × LogFileReader
  unfolding log_read
  read_loop [] lr = ([], lr)
  read_loop (c ∷ cs) lr =
      let (r, lr') = log_read codec from_begin (data_io (chunk c)) lr in
      let (records, lr'') = read_loop cs lr' in (delivered r ++ records, lr'')

  read_from-chunk :
      (c : ℕ × List ℕ) (fd : Fd) (lr : LogFileReader)
      → let p : List BfeLog × List ℕ × ℕ = pb_buff_parse codec (lr.data_buffer ++ chunk c) in
        let r : Result ReadError (List BfeLog) × LogFileReader =
          read_from codec from_begin (data_io (chunk c)) (some fd) lr in
        (delivered r.0 ≡ p.0) × (r.1.data_buffer ≡ p.1) × (r.1.log_fd ≡ lr.log_fd)
  unfolding read_from read_open file_read f_read check_read read_done data_buffer_parse
  read_from-chunk c fd lr = (refl, refl, refl)

  log_read-chunk :
      (c : ℕ × List ℕ) (fd : Fd) (lr : LogFileReader)
      → lr.log_fd ≡ some fd
      → let p : List BfeLog × List ℕ × ℕ = pb_buff_parse codec (lr.data_buffer ++ chunk c) in
        let r : Result ReadError (List BfeLog) × LogFileReader =
          log_read codec from_begin (data_io (chunk c)) lr in
        (delivered r.0 ≡ p.0) × (r.1.data_buffer ≡ p.1) × (r.1.log_fd ≡ some fd)
  unfolding log_read
  log_read-chunk c fd lr e =
      let (r, b, f) = read_from-chunk c fd lr in
      subst
        (λ (o : Option Fd).
          let p : List BfeLog × List ℕ × ℕ = pb_buff_parse codec (lr.data_buffer ++ chunk c) in
          let r : Result ReadError (List BfeLog) × LogFileReader =
            read_from codec from_begin (data_io (chunk c)) o lr in
          (delivered r.0 ≡ p.0) × (r.1.data_buffer ≡ p.1) × (r.1.log_fd ≡ some fd))
        (sym e) (r, b, f ∙ e)

  unfoldable Whole : List ℕ → Type 0
  Whole b = ((pb_buff_parse codec b).0 ≡ []) × ((pb_buff_parse codec b).1 ≡ b)

  buffer-Whole : (xs : List ℕ) → codec.buff_parse xs ≡ ([], xs) → Whole xs
  unfolding pb_buff_parse decode Whole
  buffer-Whole xs e = rw e (refl, refl)

  rest-Whole : (law : Framing codec) (xs : List ℕ) → Whole (pb_buff_parse codec xs).1
  unfolding pb_buff_parse decode Whole
  rest-Whole law xs = rw (law.remains xs) (refl, refl)

  read_loop-Whole :
      (law : Framing codec) (cs : List (ℕ × List ℕ)) (fd : Fd) (lr : LogFileReader)
      → lr.log_fd ≡ some fd
      → Whole lr.data_buffer
      → let p : List BfeLog × List ℕ × ℕ =
          pb_buff_parse codec (lr.data_buffer ++ concat (map chunk cs)) in
        ((read_loop cs lr).0 ≡ p.0) × ((read_loop cs lr).1.data_buffer ≡ p.1)
  unfolding read_loop Whole
  read_loop-Whole law [] fd lr e w = rw (append-nil lr.data_buffer) (sym w.0, sym w.1)
  read_loop-Whole law (c ∷ cs) fd lr e w =
      let (r, b, f) = log_read-chunk c fd lr e in
      let lr' : LogFileReader = (log_read codec from_begin (data_io (chunk c)) lr).1 in
      let whole : Whole lr'.data_buffer =
        subst Whole (sym b) (rest-Whole law (lr.data_buffer ++ chunk c)) in
      let (rs, bs) = read_loop-Whole law cs fd lr' f whole in
      let more : List ℕ = concat (map chunk cs) in
      let same : (lr.data_buffer ++ chunk c) ++ more ≡ lr.data_buffer ++ (chunk c ++ more) =
        append_assoc lr.data_buffer (chunk c) more in
      (
        rw (r, rs, b) (sym (decode-chunked codec law (lr.data_buffer ++ chunk c) more))
            ∙ ap (λ l. (pb_buff_parse codec l).0) same,
        rw (bs, b) (sym (rest-chunked codec law (lr.data_buffer ++ chunk c) more))
            ∙ ap (λ l. (pb_buff_parse codec l).1) same,
      )

  -- If `BuffParse` frames the stream however the reads cut it (`Framing`), a file is open, and the
  -- buffer holds no whole frame: the records delivered by any sequence of reads are those of all
  -- their bytes after the buffer, in order, and the new buffer is what `BuffParse` leaves of these
  -- bytes. No record is lost or repeated where a frame is split over reads.
  pub read_loop-delivers :
      (law : Framing codec) (cs : List (ℕ × List ℕ)) (fd : Fd) (lr : LogFileReader)
      → lr.log_fd ≡ some fd
      → codec.buff_parse lr.data_buffer ≡ ([], lr.data_buffer)
      → let p : List BfeLog × List ℕ × ℕ =
          pb_buff_parse codec (lr.data_buffer ++ concat (map chunk cs)) in
        ((read_loop cs lr).0 ≡ p.0) × ((read_loop cs lr).1.data_buffer ≡ p.1)
  read_loop-delivers law cs fd lr e w =
      read_loop-Whole law cs fd lr e (buffer-Whole lr.data_buffer w)
