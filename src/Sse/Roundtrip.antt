-- ===== src/Sse/Roundtrip.antt =====
-- sse.go (`Send`), stream.go (`heartbeat`): a client reads the events that were sent.
use rice_http.Prelude.{
  contains, ℕ, suc, Bytes, codes, true, false, ◌||◌, none, some, List, [], ◌∷◌, ◌++◌, ◌≡◌, refl,
  ◌∙◌, ap, length, arith, Bool-cases, inl, inr, if◌then◌else◌,
}
use rice_http.Sse.{
  Stream, Event, fail, beat, send, frame, put_field, put_retry, put_data, milliseconds, is_break,
  break_or_nul,
}
use rice_http.Sse.Client.{
  Buffers, Client, without_last, trim, emit, process, read_byte, read, all_digits,
}
use rice_http.Sse.Lines.{normal, or_false, at, read-append, read_line}
use rice_http.Sse.Reading.{
  Reader, idle, or_old, new_retry, received, with_data, read_id, read_event, read_retry, read_data,
}

without_last-append : (c : ℕ) (s : Bytes) → without_last c (s ++ 10 ∷ []) ≡ c ∷ s
without_last-append c [] = refl
without_last-append c (d ∷ s) = ap (λ t. c ∷ t) (without_last-append d s)

trim-append : (s : Bytes) → trim (s ++ 10 ∷ []) ≡ some s
trim-append [] = refl
trim-append (c ∷ s) = ap some (without_last-append c s)

-- The empty line behind the data.
ended :
    (b : Buffers) (d : Bytes) → process [] (record b { data_text = d ++ 10 ∷ [] }) ≡ emit (some d) b
unfolding process
ended b d = ap (λ t. emit t (record b { data_text = d ++ 10 ∷ [] })) (trim-append d)

-- A heartbeat is a comment and an empty line.
beaten : (r : Reader) → read (codes ":\n\n") (at [] (idle r)) ≡ at [] (idle r)
unfolding read read_byte process
beaten r = refl

-- The operations on a stream of events.
pub data Op : Type 0 where
  sends : Event → Op
  beats : Op

abbrev pub nothing_read : Reader
nothing_read = record { last_id = []; retry = none; messages = [] }

abbrev pub opened : Stream
opened = record { out = []; done = false; cancelled = false }

module _ (decimal : ℕ → Bytes) where
  read-frame :
      (ev : Event) (r : Reader)
      → ((n : ℕ) → all_digits (decimal n) ≡ true)
      → contains break_or_nul ev.id ≡ false
      → contains is_break ev.event ≡ false
      → read (frame decimal ev) (at [] (idle r)) ≡ at [] (idle (received decimal ev r))
  unfolding frame read
  read-frame ev r digits id_ok event_ok =
      let fuel = suc (suc (length ev.data_text)) in
      let ms = milliseconds ev.retry in
      let body = put_data fuel (some ev.data_text) (10 ∷ []) in
      let b1 : Buffers = record (idle r) { last_id = or_old ev.id r.last_id } in
      let b2 : Buffers = record b1 { kind = ev.event } in
      let b3 : Buffers = record b2 { retry = new_retry decimal ms r.retry } in
      read_id ev.id (put_field (codes "event: ") ev.event (put_retry decimal ms body)) (idle r)
        id_ok
      ∙ read_event ev.event (put_retry decimal ms body) b1 event_ok refl
      ∙ read_retry decimal ms body b2 digits
      ∙ read_data fuel ev.data_text (10 ∷ []) b3 (omega arith)
      ∙ read_line [] [] (with_data b3 (normal false ev.data_text)) tt
      ∙ ap (at []) (ended b3 (normal false ev.data_text))

  -- What a client that is between two messages has read after these operations. An event with a
  -- line break in its name, or with one or a NUL in its ID, is no event to it.
  abbrev pub expected : List Op → Reader → Reader
  expected [] r = r
  expected (sends ev ∷ ops) r = expected ops (
      if contains break_or_nul ev.id || contains is_break ev.event
      then r
      else received decimal ev r)
  expected (beats ∷ ops) r = expected ops r

  -- The operations on a stream that is open, and whose client reads.
  abbrev pub play : List Op → Stream → Stream
  play [] s = s
  play (sends ev ∷ ops) s = play ops (send decimal false ev s).1
  play (beats ∷ ops) s = play ops (beat false s)

  abbrev IsOpen : Stream → Type 0
  IsOpen s = (s.done ≡ false) × (s.cancelled ≡ false)

  -- What a stream has written reads as this.
  abbrev ReadsAs : Stream → Reader → Client → Type 0
  ReadsAs s r p = read s.out p ≡ at [] (idle r)

  beat-ReadsAs :
      (s : Stream) (r : Reader) (p : Client)
      → IsOpen s
      → ReadsAs s r p
      → IsOpen (beat false s) × ReadsAs (beat false s) r p
  unfolding beat fail
  beat-ReadsAs s r p (d, c) e =
      rw c ((d, refl), read-append s.out (codes ":\n\n") p ∙ ap (read (codes ":\n\n")) e ∙ beaten r)

  send-ReadsAs :
      (ev : Event) (s : Stream) (r : Reader) (p : Client)
      → ((n : ℕ) → all_digits (decimal n) ≡ true)
      → IsOpen s
      → ReadsAs s r p
      → IsOpen (send decimal false ev s).1
        × ReadsAs
            (send decimal false ev s).1
            (if contains break_or_nul ev.id || contains is_break ev.event
              then r
              else received decimal ev r)
            p
  unfolding send fail
  send-ReadsAs ev s r p digits (d, c) e =
      elim (Bool-cases (contains break_or_nul ev.id || contains is_break ev.event)) [
        | inl bad ↦ rw bad ((d, c), e)
        | inr fine ↦
            let (id_ok, event_ok) =
              or_false (contains break_or_nul ev.id) (contains is_break ev.event) fine in
            rw (fine, d)
              (
                (refl, c),
                read-append s.out (frame decimal ev) p
                    ∙ ap (read (frame decimal ev)) e
                    ∙ read-frame ev r digits id_ok event_ok,
              )
      ]

  play-ReadsAs :
      (ops : List Op) (s : Stream) (r : Reader) (p : Client)
      → ((n : ℕ) → all_digits (decimal n) ≡ true)
      → IsOpen s
      → ReadsAs s r p
      → ReadsAs (play ops s) (expected ops r) p
  play-ReadsAs [] s r p digits running e = e
  play-ReadsAs (sends ev ∷ ops) s r p digits running e =
      let (still, reads) = send-ReadsAs ev s r p digits running e in
      play-ReadsAs ops _ _ p digits still reads
  play-ReadsAs (beats ∷ ops) s r p digits running e =
      let (still, reads) = beat-ReadsAs s r p running e in play-ReadsAs ops _ _ p digits still reads

  -- A client of the HTML standard reads the events that Send does not refuse, in their order and
  -- whatever heartbeats stand between them: each message has the event's name, or "message" without
  -- one, the ID that was sent last, and the event's data with every line break as a line feed; and the
  -- client is between two messages. The digits of a number are digits.
  pub read-play :
      (ops : List Op)
      → ((n : ℕ) → all_digits (decimal n) ≡ true)
      → read (play ops opened).out (at [] (idle nothing_read))
        ≡ at [] (idle (expected ops nothing_read))
  unfolding read
  read-play ops digits =
      play-ReadsAs ops opened nothing_read (at [] (idle nothing_read)) digits (refl, refl) refl
