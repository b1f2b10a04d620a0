-- ===== src/BigQuery/Reader/Stream.antt =====
-- What the channel of a table tells of the errors of its stream: nothing.
use bqcubbit.Base.{
  ℕ, Text, Bool-cases, Bool, true, false, Option, none, some, List, [], ◌∷◌, ◌++◌, ◌≡◌, refl, sym,
  ap, ◌∙◌, inl, inr,
}
use bqcubbit.BigQuery.Reader.{
  StreamError, end_of_file, out_of_range, context_canceled, status_canceled, other_error,
  is_stream_done, Session, session_request, Response, recv_error, response, Round, ReadClient, got,
  StreamEnd, send_records, sent_then, decoded_then, after_recv, stream_rounds, stream_of,
  schema_bytes, read_streams, read_session, read_table_at, seen, read_table,
}

-- A round in which `Recv` returns an error.
abbrev pub failing : StreamError → Round
failing e = record { is_done = false; received = recv_error e; cut = none }

module _ (c : ReadClient) where
  open c use {Record}

  sent_then_records :
      (sent : List Record × Bool) (a b : List Record × StreamEnd)
      → a.0 ≡ b.0
      → (sent_then c sent a).0 ≡ (sent_then c sent b).0
  unfolding sent_then
  sent_then_records (rs, true) a b h = ap (λ (xs : List Record). rs ++ xs) h
  sent_then_records (rs, false) a b h = refl

  decoded_then_records :
      (cut : Option ℕ) (d : Option (List Record)) (a b : List Record × StreamEnd)
      → a.0 ≡ b.0
      → (decoded_then c cut d a).0 ≡ (decoded_then c cut d b).0
  unfolding decoded_then
  decoded_then_records cut none a b h = refl
  decoded_then_records cut (some rs) a b h = sent_then_records (send_records c cut rs) a b h

  after_recv_records :
      (content : Text) (cut : Option ℕ) (r : Response) (a b : List Record × StreamEnd)
      → a.0 ≡ b.0
      → (after_recv c content cut r a).0 ≡ (after_recv c content cut r b).0
  unfolding after_recv
  after_recv_records content cut (recv_error e) a b h = refl
  after_recv_records content cut (response none) a b h = h
  after_recv_records content cut (response (some batch)) a b h =
      decoded_then_records cut (c.decode (content ++ batch)) a b h

  failing_records :
      (content : Text) (e : StreamError) (rest : List Round)
      → (stream_rounds c content (failing e ∷ rest)).0 ≡ []
  unfolding stream_rounds after_recv is_stream_done
  failing_records content end_of_file rest = refl
  failing_records content out_of_range rest = refl
  failing_records content context_canceled rest = refl
  failing_records content status_canceled rest = refl
  failing_records content other_error rest = refl

  stream_rounds_records :
      (content : Text) (before : List Round) (e f : StreamError) (rest others : List Round)
      → (stream_rounds c content (before ++ failing e ∷ rest)).0
        ≡ (stream_rounds c content (before ++ failing f ∷ others)).0
  unfolding stream_rounds
  stream_rounds_records content [] e f rest others =
      failing_records content e rest ∙ sym (failing_records content f others)
  stream_rounds_records content (r ∷ before) e f rest others = elim (Bool-cases r.is_done) [
    | inl done ↦ rw (done, stream_rounds) refl
    | inr going ↦
        rw (going, stream_rounds)
          (after_recv_records content r.cut r.received
            (stream_rounds c content (before ++ failing e ∷ rest))
            (stream_rounds c content (before ++ failing f ∷ others))
            (stream_rounds_records content before e f rest others))
  ]

  read_rounds :
      (session : Session) (names : List Text) (name : Text) (rounds : List Round)
      → session.streams ≡ name ∷ names
      → c.read_rows name ≡ some rounds
      → read_session c (some session) ≡ got (stream_rounds c (schema_bytes c session) rounds)
  unfolding read_session read_streams stream_of
  read_rounds session names name rounds e h = rw (e, read_streams) (rw (h, stream_of) refl)

  -- Where a session was created and its first stream is read: after some rounds that come first,
  -- the records that `ReadTable` gives are the same whatever error `Recv` then returns, the end of
  -- the stream among them, and whatever would come after it. So a stream that breaks off is handed
  -- on as a table that ends there.
  pub read_table_hides_errors :
      (project dataset table name : Text) (session : Session) (names : List Text)
      (before rest : List Round) (e : StreamError)
      → c.create_read_session (session_request project dataset table none) ≡ some session
      → session.streams ≡ name ∷ names
      → c.read_rows name ≡ some (before ++ failing e ∷ rest)
      → read_table c project dataset table
        ≡ got (stream_rounds c (schema_bytes c session) (before ++ failing end_of_file ∷ [])).0
  unfolding read_table read_table_at seen
  read_table_hides_errors project dataset table name session names before rest e made named rows =
      rw made (
        rw (read_rounds session names name (before ++ failing e ∷ rest) named rows, seen)
          (ap got (stream_rounds_records (schema_bytes c session) before e end_of_file rest [])))
