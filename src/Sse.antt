-- ===== src/Sse.antt =====
-- stream.go, sse.go: a stream and the server-sent events on it. The bytes that the writer was given
-- are kept; whether a flush fails is an argument, as is `decimal` (strconv.AppendInt).
pub mod Client
pub mod Lines
pub mod Reading
pub mod Roundtrip
mod Tests
use rice_http.Prelude.{
  ℕ, zero, suc, ℤ, pos, negsuc, ◌+◌, ◌/◌, Bytes, codes, Bool, true, false, not, ◌||◌, Option, none,
  some, List, [], ◌∷◌, ◌++◌, ◌==◌, length, contains, if◌then◌else◌,
}

pub record Stream : Type 0 where
  pub out : Bytes
  pub done : Bool
  pub cancelled : Bool

pub data Result : Type 0 where
  ok : Result
  invalid_event : Result
  stream_closed : Result
  write_failed : Result

pub record Event : Type 0 where
  pub id : Bytes
  pub event : Bytes
  pub data_text : Bytes
  -- in nanoseconds
  pub retry : ℤ

-- `fail`, behind a flush or a write.
unfoldable pub fail : Bool → Stream → Result × Stream
fail failed s = if failed then (write_failed, record s { cancelled = true }) else (ok, s)

-- `Write` and `WriteString`
unfoldable pub write : Bool → Bytes → Stream → Result × Stream
write failed p s =
    if s.done then (stream_closed, s) else fail failed (record s { out = s.out ++ p })

unfoldable pub flush : Bool → Stream → Result × Stream
flush failed s = if s.done then (stream_closed, s) else fail failed s

-- The end of a stream: its context is cancelled, and it is retired.
unfoldable pub retire : Stream → Stream
retire s = record s { cancelled = true; done = true }

-- A tick of the heartbeat.
unfoldable pub beat : Bool → Stream → Stream
beat failed s =
    if s.cancelled then s else (fail failed (record s { out = s.out ++ codes ":\n\n" })).1

abbrev pub is_break : ℕ → Bool
is_break c = c == 10 || c == 13

abbrev pub break_or_nul : ℕ → Bool
break_or_nul c = is_break c || c == 0

-- Writes of a line, in front of what is written later.
abbrev pub put_line : Bytes → Bytes → Bytes → Bytes
put_line name value later = name ++ (value ++ 10 ∷ later)

-- A field that is left out when it is empty.
abbrev pub put_field : Bytes → Bytes → Bytes → Bytes
put_field name [] later = later
put_field name (c ∷ cs) later = put_line name (c ∷ cs) later

-- `Retry.Milliseconds()`, as far as it is positive
abbrev pub milliseconds : ℤ → ℕ
milliseconds (pos n) = n / 1000000
milliseconds (negsuc n) = 0

abbrev pub skip_feed : Bytes → Bytes
skip_feed [] = []
skip_feed (c ∷ cs) = if c == 10 then cs else c ∷ cs

-- The first line of the data, and what is behind its break, if it has one.
unfoldable pub cut_line : Bytes → Bytes × Option Bytes
cut_line [] = ([], none)
cut_line (c ∷ cs) =
    let rest = cut_line cs in
    if c == 13
    then ([], some (skip_feed cs))
    else if c == 10
    then ([], some cs)
    else (c ∷ rest.0, rest.1)

-- The loop over the data; each round but the last drops a byte of it.
unfoldable pub put_data : ℕ → Option Bytes → Bytes → Bytes
put_data zero data_left later = later
put_data (suc n) none later = later
put_data (suc n) (some d) later =
    put_line (codes "data: ") (cut_line d).0 (put_data n (cut_line d).1 later)

module _ (decimal : ℕ → Bytes) where
  abbrev pub put_retry : ℕ → Bytes → Bytes
  put_retry zero later = later
  put_retry (suc ms) later = put_line (codes "retry: ") (decimal (suc ms)) later

  unfoldable pub frame : Event → Bytes
  frame ev = put_field (codes "id: ") ev.id (
      put_field (codes "event: ") ev.event (
        put_retry (milliseconds ev.retry)
          (put_data (suc (suc (length ev.data_text))) (some ev.data_text) (10 ∷ []))))

  -- `Send`
  unfoldable pub send : Bool → Event → Stream → Result × Stream
  send failed ev s =
      if contains break_or_nul ev.id || contains is_break ev.event
      then (invalid_event, s)
      else if s.done
      then (stream_closed, s)
      else fail failed (record s { out = s.out ++ frame ev })
