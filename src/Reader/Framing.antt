-- ===== src/Reader/Framing.antt =====
-- What the theorems on streams assume of `b2log.BuffParse`, and what it says of `PbBuffParse`.
use log_reader.Prelude.{ℕ, List, [], ◌∷◌, ◌++◌, Option, none, some, ◌≡◌, refl, ap}
use log_reader.Fields.Log.{BfeLog}
use log_reader.Reader.Parse.{Codec, add_record, decode, pb_buff_parse}

-- Framing does not depend on where the reads cut the stream: a frame whose end is missing stays in
-- the rest, to which the bytes that follow are appended.
pub record Framing (codec : Codec) : Type 0 where
  pub remains :
      (xs : List ℕ) → codec.buff_parse (codec.buff_parse xs).1 ≡ ([], (codec.buff_parse xs).1)
  pub chunked :
      (xs ys : List ℕ)
      → codec.buff_parse (xs ++ ys) ≡ (
        (codec.buff_parse xs).0 ++ (codec.buff_parse ((codec.buff_parse xs).1 ++ ys)).0,
        (codec.buff_parse ((codec.buff_parse xs).1 ++ ys)).1,
      )

add_record-append :
    (o : Option BfeLog) (p q r : List BfeLog × ℕ)
    → r.0 ≡ p.0 ++ q.0
    → (add_record o r).0 ≡ (add_record o p).0 ++ q.0
add_record-append none p q r e = e
add_record-append (some b) p q r e = ap (◌∷◌ b) e

decode-append :
    (u : List ℕ → Option BfeLog) (xs ys : List (List ℕ))
    → (decode u (xs ++ ys)).0 ≡ (decode u xs).0 ++ (decode u ys).0
unfolding decode
decode-append u [] ys = refl
decode-append u (x ∷ xs) ys =
    add_record-append (u x) (decode u xs) (decode u ys) (decode u (xs ++ ys))
      (decode-append u xs ys)

module _ (codec : Codec) where
  -- The frames of the first chunk, and then those of its rest and the other chunks.
  pub decode-chunked :
      (law : Framing codec) (xs ys : List ℕ)
      → (pb_buff_parse codec (xs ++ ys)).0
        ≡ (pb_buff_parse codec xs).0 ++ (pb_buff_parse codec ((pb_buff_parse codec xs).1 ++ ys)).0
  unfolding pb_buff_parse
  decode-chunked law xs ys = rw (law.chunked xs ys) (decode-append codec.unmarshal _ _)

  pub rest-chunked :
      (law : Framing codec) (xs ys : List ℕ)
      → (pb_buff_parse codec (xs ++ ys)).1
        ≡ (pb_buff_parse codec ((pb_buff_parse codec xs).1 ++ ys)).1
  unfolding pb_buff_parse
  rest-chunked law xs ys = rw (law.chunked xs ys)

  -- A second parse finds nothing more.
  pub no_more :
      (law : Framing codec) (xs : List ℕ) → (pb_buff_parse codec (pb_buff_parse codec xs).1).0 ≡ []
  unfolding pb_buff_parse decode
  no_more law xs = rw (law.remains xs) refl

  pub same_rest :
      (law : Framing codec) (xs : List ℕ)
      → (pb_buff_parse codec (pb_buff_parse codec xs).1).1 ≡ (pb_buff_parse codec xs).1
  unfolding pb_buff_parse
  same_rest law xs = rw (law.remains xs) refl

  -- Bytes in which no frame is whole.
  pub frameless :
      (xs : List ℕ)
      → codec.buff_parse xs ≡ ([], xs)
      → ((pb_buff_parse codec xs).0 ≡ []) × ((pb_buff_parse codec xs).1 ≡ xs)
  unfolding pb_buff_parse decode
  frameless xs e = rw e (refl, refl)
