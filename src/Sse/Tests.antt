-- ===== src/Sse/Tests.antt =====
-- A stream with two events and a heartbeat, and the instance of the round trip.
use rice_http.Prelude.{contains, ℕ, pos, Bytes, codes, false, List, [], ◌∷◌, ◌≡◌, refl}
use rice_http.Sse.{
  Event, invalid_event, stream_closed, send, fail, flush, write, beat, retire, frame, put_data,
  cut_line,
}
use rice_http.Sse.Client.{all_digits, read}
use rice_http.Sse.Lines.{at}
use rice_http.Sse.Reading.{idle}
use rice_http.Sse.Roundtrip.{Op, sends, beats, expected, play, nothing_read, opened, read-play}

sse : Unit {0}
unfolding send fail flush write beat retire frame put_data cut_line contains all_digits
sse = tt

-- Numbers are written by one digit, which is enough here.
abbrev one_digit : ℕ → Bytes
one_digit n = codes "5"

abbrev tick : Event
tick = record {
  id = codes "7";
  event = codes "tick";
  data_text = codes "a\nb";
  retry = pos 5000000;
}

abbrev bare : Event
bare = record { id = []; event = []; data_text = []; retry = pos 0 }

abbrev two_lines : Event
two_lines = record { id = []; event = codes "a\nb"; data_text = []; retry = pos 0 }

abbrev ops : List Op
ops = sends tick ∷ beats ∷ sends two_lines ∷ sends bare ∷ []

framed : frame one_digit tick ≡ codes "id: 7\nevent: tick\nretry: 5\ndata: a\ndata: b\n\n"
unfolding sse
framed = refl

refused :
    ((send one_digit false two_lines opened).0 ≡ invalid_event)
    × ((send one_digit false bare (retire opened)).0 ≡ stream_closed)
unfolding sse
refused = (refl, refl)

expected_messages :
    (expected one_digit ops nothing_read).messages
    ≡ record { kind = codes "tick"; data_text = codes "a\nb"; last_id = codes "7" }
      ∷ record { kind = codes "message"; data_text = []; last_id = codes "7" }
      ∷ []
unfolding sse
expected_messages = refl

read-play_example :
    read (play one_digit ops opened).out (at [] (idle nothing_read))
    ≡ at [] (idle (expected one_digit ops nothing_read))
unfolding sse
read-play_example = read-play one_digit ops (λ n. refl)
